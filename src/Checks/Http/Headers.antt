-- ===== src/Checks/Http/Headers.antt =====
-- `redirectHeaders` of workers/checks/src/executor.ts: no sensitive header is left.
use mathlib.Core.List.{Memᴰ}
use mathlib.Core.List.Memᴰ
use text.Mathlib.TextPositions.{eq_refl}
use alphaping.Prelude.{
  ◌≡◌, Bool, true, false, Bool-cases, inl, inr, not, String, str_eq, List, [], ◌∷◌, map, filter,
  All, All-mono, All-filter, All-intro, Memᴰ-filter, arith,
}
use alphaping.Checks.Hostname.{Network}
use alphaping.Checks.Http.{Headers, delete_header, delete_names, is_sensitive}

not-true : (b : Bool) → not b ≡ true → b ≡ false
not-true b h = ground arith

module _ (network : Network) where
  open network use {to_lower_case}

  also :
      (header : String × String) (name : String) (names : List String)
      → not (str_eq (to_lower_case header.0) (to_lower_case name)) ≡ true
      → ((other : String)
          → Memᴰ other names
          → str_eq (to_lower_case header.0) (to_lower_case other) ≡ false)
      → (other : String) → Memᴰ other (name ∷ names)
      → str_eq (to_lower_case header.0) (to_lower_case other) ≡ false
  also header name names differs others other (Memᴰ.head e) = rw e (not-true _ differs)
  also header name names differs others other (Memᴰ.tail m) = others other m

  delete_names-All :
      (P : (String × String) → Type 0) (names : List String) (headers : Headers)
      → All P headers
      → All
          (λ header.
            P header
            × ((name : String)
                → Memᴰ name names
                → str_eq (to_lower_case header.0) (to_lower_case name) ≡ false))
          (delete_names network headers names)
  unfolding delete_names
  delete_names-All P [] headers ps = All-mono headers (λ header p. (p, λ name m. elim m [ ])) ps
  delete_names-All P (name ∷ names) headers ps =
      All-mono (delete_names network (delete_header network headers name) names)
        (λ header ((p, differs), others). (p, also header name names differs others))
        (delete_names-All
          (λ header. P header × (not (str_eq (to_lower_case header.0) (to_lower_case name)) ≡ true))
          names (delete_header network headers name)
          (All-filter P (λ header. not (str_eq (to_lower_case header.0) (to_lower_case name)))
            headers ps))

  pub delete_names-keeps :
      (P : (String × String) → Type 0) (names : List String) (headers : Headers)
      → All P headers
      → All P (delete_names network headers names)
  delete_names-keeps P names headers ps =
      All-mono
        {P = λ header.
          P header
          × ((name : String)
              → Memᴰ name names
              → str_eq (to_lower_case header.0) (to_lower_case name) ≡ false)}
        (delete_names network headers names) (λ header (p, _). p)
        (delete_names-All P names headers ps)

  -- Of headers that a redirect leads to another origin, none that is sensitive is left.
  pub delete_names-sensitive :
      (lower_lower : (s : String) → to_lower_case (to_lower_case s) ≡ to_lower_case s)
      (sensitive_headers : List String) (headers : Headers)
      → All
          (λ header. is_sensitive network sensitive_headers header.0 ≡ false)
          (delete_names network headers (
            filter
              (is_sensitive network sensitive_headers)
              (map (λ header. to_lower_case header.0) headers)))
  delete_names-sensitive lower_lower sensitive_headers headers =
      let names = map (λ (header : String × String). to_lower_case header.0) headers in
      let deleted = filter (is_sensitive network sensitive_headers) names in
      All-mono (delete_names network headers deleted)
        (λ header (m, kept). elim (Bool-cases (is_sensitive network sensitive_headers header.0)) [
          | inr h ↦ h
          | inl h ↦
              let there : Memᴰ (to_lower_case header.0) deleted =
                Memᴰ-filter (is_sensitive network sensitive_headers) names
                  (Memᴰ.map (λ (other : String × String). to_lower_case other.0) m)
                  (rw lower_lower h) in
              let differs = kept (to_lower_case header.0) there in
              cc (rw (lower_lower, eq_refl) at differs)
        ])
        (delete_names-All (λ header. Memᴰ header headers) deleted headers
          (All-intro _ headers (λ header m. m)))
