-- ===== src/Tts/Diagnostics/Privacy.antt =====
-- What a recorded event of frontend/src/lib/tts-diagnostics.ts can contain.
use z_reader.Prelude.{
  ℕ, zero, suc, ◌-◌, ◌≤◌, ◌≡◌, String, Bool, true, List, [], ◌∷◌, ◌++◌, ltb, length, drop, All,
  All-append, arith, Bool-cases, inl, inr, length-drop,
}
use z_reader.Tts.Diagnostics.{
  DiagnosticValue, text, Detail, Diagnostic, enum_fields, is_safe, safe_detail,
  record_tts_diagnostic, ring_size, member, numeric_fields, boolean_fields,
}

-- An entry that says no more than a number, a flag or a word of the table for its key.
abbrev pub IsPublic : String × DiagnosticValue → Type 0
IsPublic (key, text s) = member s (enum_fields key) ≡ true
IsPublic (key, v) = Unit

is_safe-IsPublic : (key : String) (v : DiagnosticValue) → is_safe key v ≡ true → IsPublic (key, v)
unfolding is_safe
is_safe-IsPublic key (text s) h = elim (Bool-cases (member key numeric_fields)) [
  | inl number ↦ let e = rw (number, is_safe) at h in cc e
  | inr rest ↦ elim (Bool-cases (member key boolean_fields)) [
    | inl boolean ↦ let e = rw (rest, boolean, is_safe) at h in cc e
    | inr word ↦ rw (rest, word, is_safe) at h
  ]
]
is_safe-IsPublic key _ h = tt

safe_detail-IsPublic : (d : Detail) → All IsPublic (safe_detail d)
unfolding safe_detail
safe_detail-IsPublic [] = tt
safe_detail-IsPublic ((key, v) ∷ d) = elim (Bool-cases (is_safe key v)) [
  | inl safe ↦ rw (safe, safe_detail) (is_safe-IsPublic key v safe, safe_detail-IsPublic d)
  | inr unsafe ↦ rw (unsafe, safe_detail) (safe_detail-IsPublic d)
]

All-drop {ℓ κ} : {A : Type ℓ} (P : A → Type κ) (n : ℕ) (xs : List A) → All P xs → All P (drop n xs)
All-drop P zero xs h = h
All-drop P (suc n) [] h = tt
All-drop P (suc n) (x ∷ xs) h = All-drop P n xs h.1

-- On a ring of at most two hundred events whose texts are words of the fixed table for their keys:
-- whatever is recorded, the ring stays so.
pub record_tts_diagnostic_safe :
    (enabled : Bool) (named : String → Bool) (now : ℕ) (event : String) (detail : Detail)
    (entries : List Diagnostic)
    → length entries ≤ ring_size
    → All (λ e. All IsPublic e.detail) entries
    → (length (record_tts_diagnostic enabled named now event detail entries) ≤ ring_size)
      × All
          (λ e. All IsPublic e.detail)
          (record_tts_diagnostic enabled named now event detail entries)
unfolding record_tts_diagnostic
record_tts_diagnostic_safe enabled named now event detail entries h p =
    let e : Diagnostic = record { timestamp = now; event = event; detail = safe_detail detail } in
    let entries' = entries ++ e ∷ [] in
    let safe =
      All-append (λ (e : Diagnostic). All IsPublic e.detail) entries (e ∷ []) p
        (safe_detail-IsPublic detail, tt) in
    elim (Bool-cases enabled) [
      | inr off ↦ rw (off, record_tts_diagnostic) (h, p)
      | inl on ↦ elim (Bool-cases (named event)) [
        | inr bad ↦ rw (on, bad, record_tts_diagnostic) (h, p)
        | inl good ↦ elim (Bool-cases (ltb ring_size (length entries'))) [
          | inl over ↦
              rw (on, good, over, record_tts_diagnostic)
                (
                  omega (arith, length-drop (length entries' - ring_size) entries'),
                  All-drop _ (length entries' - ring_size) entries' safe,
                )
          | inr fits ↦ rw (on, good, fits, record_tts_diagnostic) (ground (arith, fits), safe)
        ]
      ]
    ]
