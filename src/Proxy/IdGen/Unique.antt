-- ===== src/Proxy/IdGen/Unique.antt =====
-- The ids are positive int32 numbers, and distinct within 2147 calls.
use securetunnel.Base.{
  ℕ, zero, suc, ◌+◌, ◌/◌, ◌%◌, ◌^◌, ◌≤◌, ◌<◌, ◌≡◌, ◌≢◌, ap, List, [], ◌∷◌, Option, none, some,
  arith, All,
}
use securetunnel.Proxy.IdGen.{generate, generate_all, max_counter}

-- A time of day: below 24 00 00.
abbrev pub IsTime : ℕ → Type 0
IsTime time = time < 240_000

-- The id is positive as an int32, holds the counter and the time in its digits, and the counter
-- stays between 1 and 2147.
pub generate_range :
    (time counter : ℕ)
    → IsTime time
    → counter ≤ max_counter
    → (0 < (generate time counter).1)
      × ((generate time counter).1 < 2 ^ 31)
      × ((generate time counter).1 / 1_000_000 ≡ (generate time counter).0)
      × ((generate time counter).1 % 1_000_000 ≡ time)
      × (1 ≤ (generate time counter).0)
      × ((generate time counter).0 ≤ max_counter)
unfolding generate
generate_range time counter t c = ground arith

abbrev pub get_elem? : List ℕ → ℕ → Option ℕ
get_elem? [] i = none
get_elem? (x ∷ xs) zero = some x
get_elem? (x ∷ xs) (suc i) = get_elem? xs i

-- The counter that the id of the call number `i` holds.
counter_at : ℕ → ℕ → ℕ
counter_at counter i = (counter % 2147 + i) % 2147 + 1

counter_of :
    (times : List ℕ) (counter i id : ℕ)
    → All IsTime times
    → counter ≤ max_counter
    → get_elem? (generate_all times counter) i ≡ some id
    → id / 1_000_000 ≡ counter_at counter i
unfolding generate_all counter_at
counter_of [] counter i id t c e = absurd (ground arith)
counter_of (time ∷ times) counter zero id t c e = ground arith
counter_of (time ∷ times) counter (suc i) id t c e =
    let range = generate_range time counter t.0 c in
    let ih = counter_of times (generate time counter).0 i id t.1 range.5 e in ground (arith, ih)

-- From a counter of at most 2147, two stream ids of one generator, of which the second comes less
-- than 2147 calls after the first, are different, whatever the times of day of the calls are.
pub generate_all-distinct :
    (times : List ℕ) (counter i j a b : ℕ)
    → All IsTime times
    → counter ≤ max_counter
    → i < j
    → j < i + max_counter
    → get_elem? (generate_all times counter) i ≡ some a
    → get_elem? (generate_all times counter) j ≡ some b
    → a ≢ b
unfolding counter_at
generate_all-distinct times counter i j a b t c lt near ea eb same =
    let at_i = counter_of times counter i a t c ea in
    let at_j = counter_of times counter j b t c eb in
    omega (arith, ap (λ (x : ℕ). x / 1_000_000) same)
