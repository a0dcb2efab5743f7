-- ===== src/Tts/AudioFocus.antt =====
-- frontend/src/lib/tts-audio-focus.ts: at most one owner plays. Owners are named by numbers, and so
-- are leases, in the order in which they were made. What `onLoss` does is left to the caller: the
-- owner whose callback runs is part of the result.
use z_reader.Prelude.{
  ℕ, ◌+◌, ◌<◌, ◌≡◌, ◌≢◌, ◌↔◌, refl, Bool, true, false, Option, none, some, if◌then◌else◌, ◌==◌,
  arith, Bool-cases, inl, inr,
}

pub record Lease : Type 0 where
  pub number : ℕ
  pub owner : ℕ

pub record Focus : Type 0 where
  pub active_lease : Option Lease
  pub next_lease : ℕ

abbrev pub loser : Option Lease → ℕ → Option ℕ
loser none owner = none
loser (some l) owner = if l.owner == owner then none else some l.owner

-- The new state, the lease whose release is returned, and the owner whose `onLoss` runs.
unfoldable pub claim_tts_audio_focus : ℕ → Focus → Focus × Lease × Option ℕ
claim_tts_audio_focus owner f =
    let lease : Lease = record { number = f.next_lease; owner = owner } in
    (
      record { active_lease = some lease; next_lease = f.next_lease + 1 },
      lease,
      loser f.active_lease owner,
    )

abbrev pub is_lease : Lease → Option Lease → Bool
is_lease l none = false
is_lease l (some k) = k.number == l.number

-- The function that a claim returns.
unfoldable pub release : Lease → Focus → Focus
release l f = if is_lease l f.active_lease then record f { active_lease = none } else f

-- From one state to a later one, where the lease `l` is never released.
pub data Without (l : Lease) (f : Focus) : Focus → Type 0 where
  now : Without l f f
  claimed : {g : Focus} (owner : ℕ) → Without l f g → Without l f (claim_tts_audio_focus owner g).0
  released :
      {g : Focus} (k : Lease) → k.number ≢ l.number → Without l f g → Without l f (release k g)

-- Whether the lease is still the active one, or a later claim was made.
record Keeps (l : Lease) (f : Focus) : Type 0 where
  known : l.number < f.next_lease
  held : (f.next_lease ≡ l.number + 1) → f.active_lease ≡ some l

taken : (l r : Lease) (o : Option Lease) → o ≡ some l → is_lease r o ≡ true → r.number ≡ l.number
taken l r o h t = ground arith

release-Keeps : (l r : Lease) (g : Focus) → r.number ≢ l.number → Keeps l g → Keeps l (release r g)
unfolding release
release-Keeps l r g other v = elim (Bool-cases (is_lease r g.active_lease)) [
  | inr stays ↦ rw (stays, release) v
  | inl goes ↦
      rw (goes, release)
        (record {
          known = v.known;
          held = λ e. absurd (other (taken l r g.active_lease (v.held e) goes));
        })
]

Without-Keeps : (l : Lease) (f : Focus) {g : Focus} → Keeps l f → Without l f g → Keeps l g
unfolding claim_tts_audio_focus
Without-Keeps l f k now = k
Without-Keeps l f k (claimed owner w) =
    let v = Without-Keeps l f k w in
    record { known = omega (arith, v.known); held = λ e. absurd (omega (arith, v.known, e)) }
Without-Keeps l f k (released {g = g} r other w) = release-Keeps l r g other (Without-Keeps l f k w)

loser_iff :
    (o : Option Lease) (owner other : ℕ)
    → (loser o owner ≡ some other)
      ↔ ((k : Lease) × (o ≡ some k) × (k.owner ≡ other) × (other ≢ owner))
loser_iff none owner other = (λ h. absurd (ground (arith, h)), λ t. absurd (ground (arith, t.1)))
loser_iff (some l) owner other =
    (λ h. (l, refl, ground (arith, h), ground (arith, h)), λ t. ground (arith, t.1))

-- A claim takes the focus and keeps it while no other claim follows, whatever older leases are
-- released meanwhile; and an owner loses the focus by it exactly if it had the focus and is not the
-- one that claims.
pub claim_holds :
    (owner : ℕ) (f : Focus) {g : Focus}
    → Without (claim_tts_audio_focus owner f).1 (claim_tts_audio_focus owner f).0 g
    → g.next_lease ≡ f.next_lease + 1
    → (g.active_lease ≡ some (claim_tts_audio_focus owner f).1)
      × ((other : ℕ)
          → ((claim_tts_audio_focus owner f).2 ≡ some other)
            ↔ ((k : Lease) × (f.active_lease ≡ some k) × (k.owner ≡ other) × (other ≢ owner)))
unfolding claim_tts_audio_focus
claim_holds owner f w e =
    let k = Without-Keeps _ _ (record { known = omega arith; held = λ h. refl }) w in
    (k.held e, λ other. loser_iff f.active_lease owner other)
