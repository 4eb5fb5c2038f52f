-- ===== src/Sfu/Publication/Keyframe.antt =====
-- internal/sfu/publication.go: the limit on requests for a keyframe.
use pulse_rtc.Prelude.{
  ℕ, ◌+◌, ◌-◌, ◌*◌, ◌≤◌, ◌≡◌, ◌⊎◌, inl, inr, Bool, List, [], ◌∷◌, ◌++◌, arith, length,
  length-append, string_eq,
}
use pulse_rtc.Sfu.Publication.{Publication, Pli, pli_of, request_keyframe}

-- Requests at times that do not go back, and none after `until`.
abbrev pub Clocked : ℕ → ℕ → List (ℕ × Bool) → Type 0
Clocked t until [] = t ≤ until
Clocked t until ((now, swapped) ∷ rs) = (t ≤ now) × Clocked now until rs

unfoldable pub requests : List (ℕ × Bool) → Publication → List Pli
requests [] p = []
requests ((now, swapped) ∷ rs) p = let r = request_keyframe now swapped p in r.1 ++ requests rs r.0

length-pli_of : (p : Publication) → length (pli_of p) ≤ 1
length-pli_of p = ground arith

length-request_keyframe :
    (now : ℕ) (swapped : Bool) (p : Publication)
    → p.last_keyframe ≤ now
    → ((length (request_keyframe now swapped p).1 ≡ 0)
        × ((request_keyframe now swapped p).0.last_keyframe ≡ p.last_keyframe))
      ⊎ ((length (request_keyframe now swapped p).1 ≤ 1)
          × ((request_keyframe now swapped p).0.last_keyframe ≡ now)
          × (p.last_keyframe + 1000000000 ≤ now))
unfolding request_keyframe
length-request_keyframe now swapped p h = ground (arith, length-pli_of p)

after_request :
    (t until : ℕ) (rs : List (ℕ × Bool)) (p : Publication)
    → p.last_keyframe ≤ t
    → Clocked t until rs
    → length (requests rs p) * 1000000000 + p.last_keyframe ≤ until
unfolding requests
after_request t until [] p h c = omega arith
after_request t until ((now, swapped) ∷ rs) p h c =
    let r = request_keyframe now swapped p in
    elim (length-request_keyframe now swapped p (omega (arith, c.0))) [
      | inl e ↦ omega (
        arith,
        length-append r.1 (requests rs r.0),
        after_request now until rs r.0 (omega (arith, e.1, c.0)) c.1,
        e.0,
        e.1,
      )
      | inr e ↦ omega (
        arith,
        length-append r.1 (requests rs r.0),
        after_request now until rs r.0 (omega (arith, e.1)) c.1,
        e.0,
        e.1,
        e.2,
      )
    ]

-- However many callers ask within a span of time, and whichever of them loses the compare-and-swap,
-- at most one request for each second of the span, and one more, goes to the publisher, where the
-- clock does not go back.
pub requests-rate :
    (t until : ℕ) (rs : List (ℕ × Bool)) (p : Publication)
    → p.last_keyframe ≤ t
    → Clocked t until rs
    → length (requests rs p) * 1000000000 ≤ (until - t) + 1000000000
unfolding requests
requests-rate t until [] p h c = omega arith
requests-rate t until ((now, swapped) ∷ rs) p h c =
    let r = request_keyframe now swapped p in
    elim (length-request_keyframe now swapped p (omega (arith, c.0))) [
      | inl e ↦ omega (
        arith,
        length-append r.1 (requests rs r.0),
        requests-rate now until rs r.0 (omega (arith, e.1, c.0)) c.1,
        e.0,
        e.1,
        c.0,
      )
      | inr e ↦ omega (
        arith,
        length-append r.1 (requests rs r.0),
        after_request now until rs r.0 (omega (arith, e.1)) c.1,
        e.0,
        e.1,
        e.2,
        c.0,
      )
    ]
