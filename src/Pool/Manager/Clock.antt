-- ===== src/Pool/Manager/Clock.antt =====
-- The clock of BufMgr::allocBuf of p2/src/buffer.cpp, which passes each of `n` frames, and the rounds
-- that its loop has left: those up to the frame where it began, and then two turns less those done.
use native.Mathlib.Nat.{mod_self, mod-eq_of_lt}
use cs564_projects.Prelude.{
  ℕ, zero, suc, ◌+◌, ◌-◌, ◌*◌, ◌<◌, ◌%◌, if◌then◌else◌, ltb, ◌==◌, ◌≡◌, ◌≢◌, arith, Bool-cases, inl,
  inr,
}

-- The rounds from frame `c` up to frame `g`.
abbrev pub gap : ℕ → ℕ → ℕ → ℕ
gap n c g = if ltb g c then n + g - c else g - c

abbrev pub left : ℕ → ℕ → ℕ → ℕ → ℕ
left n start loop c = if ltb loop 3 then gap n c start + (2 - loop) * n + 1 else 0

pub next_clock : (n c : ℕ) → c < n → (c + 1) % n ≡ (if c + 1 == n then 0 else c + 1)
next_clock n c l = elim (Bool-cases (c + 1 == n)) [
  | inl e ↦ let same : n ≡ c + 1 = ground arith in rw (e, same) (mod_self (c + 1))
  | inr e ↦ let inside : c + 1 < n = ground arith in rw e (mod-eq_of_lt inside)
]

pub gap-step : (n c g : ℕ) → c < n → g < n → g ≢ c → gap n ((c + 1) % n) g + 1 ≡ gap n c g
gap-step n c g l m ne = rw (next_clock n c l) (ground arith)

pub gap-turn : (n g : ℕ) → g < n → gap n ((g + 1) % n) g + 1 ≡ n
gap-turn n g l = rw (next_clock n g l) (ground arith)

two_less : (loop n : ℕ) → loop < 2 → (2 - (loop + 1)) * n + n ≡ (2 - loop) * n
two_less zero n l = ground arith
two_less (suc zero) n l = ground arith
two_less (suc (suc loop)) n l = absurd (omega arith)

pub left-step :
    (n start loop c : ℕ)
    → loop < 3
    → c < n
    → start < n
    → left n start (if start == c then loop + 1 else loop) ((c + 1) % n) + 1 ≡ left n start loop c
left-step n start loop c l m k = elim (Bool-cases (start == c)) [
  | inl e ↦
      let same : c ≡ start = ground arith in
      rw (e, same)
        (elim (Bool-cases (ltb loop 2)) [
          | inl f ↦ ground (arith, gap-turn n start k, two_less loop n (ground arith))
          | inr f ↦ let last : loop ≡ 2 = ground arith in rw last (ground arith)
        ])
  | inr e ↦ rw e (ground (arith, gap-step n c start m k (ground arith)))
]
