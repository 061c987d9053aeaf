-- ===== src/Contracts/LiveFrame/Decrypt.antt =====
-- Decryption of a live frame: what a snapshot that leaves it is bound to.
use alphaping.Prelude.{
  ℕ, ◌≤◌, ◌<◌, ◌≡◌, List, String, All, arith, length, [], ◌∷◌, ◌++◌, take, refl, true, ◌==◌, ◌||◌,
  not, ltb, leb,
}
use alphaping.Prelude.Outcome.{
  Outcome, ok, Yields, yields, Yields-bind, Yields-bind_eq, Yields-throw_if,
}
use alphaping.Contracts.Protobuf.{IsByte, max_safe_integer}
use alphaping.Contracts.LiveFrame.{
  AgentLiveFrameHeader, ExpectedScope, LiveViewerSnapshot, nonce, every_at,
  decode_live_metric_sample, bytes_of, decrypt_agent_live_frame,
}
use alphaping.Contracts.LiveFrame.Sample.{IsLiveSample, decode_live_metric_sample-Yields}

every_at-take :
    (values bytes : List ℕ) → every_at values bytes ≡ true → take (length values) bytes ≡ values
unfolding every_at
every_at-take [] bytes e = refl
every_at-take (value ∷ values) [] e = cc
every_at-take (value ∷ values) (b ∷ bytes) e =
    let first : b ≡ value = ground (arith, e) in
    let rest = every_at-take values bytes (ground (arith, e)) in cc

nonce-Yields :
    (prefix : List ℕ) (sequence : ℕ)
    → Yields
        (λ iv.
          (iv ≡ prefix ++ bytes_of 8 sequence) × (0 < sequence) × (sequence ≤ max_safe_integer))
        (nonce prefix sequence)
unfolding nonce
nonce-Yields prefix sequence =
    Yields-throw_if (not (length prefix == 4) || ltb max_safe_integer sequence || leb sequence 0)
      "invalid_live_nonce" λ accepted. yields _ (refl, ground arith, ground arith)

module _ (decode_base64_url : String → ℕ → Outcome (List ℕ))
    (derive_agent_live_key : String → Outcome (List ℕ))
    (decrypt : List ℕ → List ℕ → List ℕ → List ℕ → Outcome (List ℕ)) where
  -- A snapshot is of the machine and the session that the ticket is for; its sample is what a plaintext
  -- encodes, and is in range; the plaintext is the frame's ciphertext opened, with the header as additional
  -- data, under the key derived from the ticket's session and a nonce of the ticket's prefix and the frame's
  -- sequence number, which is positive; and the sample's time is that of the header.
  pub record IsBound (frame : AgentLiveFrameHeader) (expected : ExpectedScope)
      (snapshot : LiveViewerSnapshot) : Type 0 where
    pub session : List ℕ
    pub key : List ℕ
    pub prefix : List ℕ
    pub plaintext : List ℕ
    pub machine : snapshot.machine_pk ≡ expected.machine_pk
    pub header : frame.machine_pk ≡ expected.machine_pk
    pub is_session : decode_base64_url expected.session_id 16 ≡ ok session
    pub same_session : take 16 frame.session_id ≡ session
    pub is_key : derive_agent_live_key expected.session_id ≡ ok key
    pub is_prefix : decode_base64_url expected.nonce_prefix 4 ≡ ok prefix
    pub is_opened :
        decrypt key (prefix ++ bytes_of 8 frame.sequence) frame.aad frame.ciphertext ≡ ok plaintext
    pub is_sample : decode_live_metric_sample plaintext ≡ ok snapshot.sample
    pub time : snapshot.sample.observed_at ≡ frame.observed_at
    pub sequence : 0 < frame.sequence
    pub sample : IsLiveSample snapshot.sample

module _ (decode_base64_url : String → ℕ → Outcome (List ℕ))
    (derive_agent_live_key : String → Outcome (List ℕ))
    (decrypt : List ℕ → List ℕ → List ℕ → List ℕ → Outcome (List ℕ))
    (decodes : (s : String) (n : ℕ) → Yields (λ b. Unit {0}) (decode_base64_url s n))
    (derives : (s : String) → Yields (λ b. Unit {0}) (derive_agent_live_key s))
    (decrypts : (key iv aad ciphertext : List ℕ)
      → Yields (All IsByte) (decrypt key iv aad ciphertext)) where
  -- Where base64, the key derivation and AES-GCM each end by bytes or an error, decrypting a frame ends by an
  -- error, or by a snapshot of the ticket's session and machine whose sample is that of the ciphertext as it is
  -- opened with the ticket's key, its nonce prefix, the frame's number and the header.
  pub decrypt_agent_live_frame-Yields :
      (frame : AgentLiveFrameHeader) (expected : ExpectedScope)
      → Yields
          (IsBound decode_base64_url derive_agent_live_key decrypt frame expected)
          (decrypt_agent_live_frame decode_base64_url derive_agent_live_key decrypt frame expected)
  unfolding decrypt_agent_live_frame
  decrypt_agent_live_frame-Yields frame expected =
      Yields-bind_eq _ _ (decodes expected.session_id 16) λ session is_session _.
        Yields-throw_if
          (not (length session == 16)
            || not (every_at session frame.session_id)
            || not (frame.machine_pk == expected.machine_pk))
          "live_frame_scope_mismatch"
          λ in_scope. Yields-bind_eq _ _ (derives expected.session_id) λ key is_key _.
            Yields-bind_eq _ _ (decodes expected.nonce_prefix 4) λ prefix is_prefix _.
              Yields-bind _ _ (nonce-Yields prefix frame.sequence) λ iv sound.
                Yields-bind_eq _ _ (decrypts key iv frame.aad frame.ciphertext)
                  λ plaintext is_opened b.
                    Yields-bind_eq _ _ (decode_live_metric_sample-Yields plaintext b)
                      λ sample is_sample live.
                        Yields-throw_if (not (sample.observed_at == frame.observed_at))
                          "live_frame_time_mismatch"
                          λ on_time.
                            let same : frame.machine_pk ≡ expected.machine_pk =
                              ground (arith, in_scope) in
                            let sixteen : length session ≡ 16 = ground (arith, in_scope) in
                            yields _ (record {
                              session = session;
                              key = key;
                              prefix = prefix;
                              plaintext = plaintext;
                              machine = same;
                              header = same;
                              is_session = is_session;
                              same_session = rw (← sixteen) (
                                  every_at-take session frame.session_id
                                    (ground (arith, in_scope)));
                              is_key = is_key;
                              is_prefix = is_prefix;
                              is_opened = rw (← sound.0) is_opened;
                              is_sample = is_sample;
                              time = ground (arith, on_time);
                              sequence = sound.1;
                              sample = live;
                            })
