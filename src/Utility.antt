-- ===== src/Utility.antt =====
-- utility.cpp: the two byte array routines. The clock and the file dump are not modelled.
use tvie_rtmp.Base.{
  ℕ, zero, suc, ◌+◌, ◌-◌, ◌/◌, ◌≡◌, refl, Bool, true, false, some, none, List, [], ◌∷◌,
  if◌then◌else◌, ◌==◌, get_elem?, set,
}

-- The rounds `i`, … of compareData's loop, `left` of them. The callers' arrays have `size` bytes.
compare_loop : ℕ → ℕ → List ℕ → List ℕ → Bool
compare_loop zero i xs ys = true
compare_loop (suc left) i xs ys = elim (get_elem? xs i) [
  | none ↦ false
  | some x ↦ elim (get_elem? ys i) [
    | none ↦ false
    | some y ↦ if x == y then compare_loop left (i + 1) xs ys else false
  ]
]

unfoldable pub compare_data : List ℕ → List ℕ → ℕ → Bool
unfolding compare_loop
compare_data xs ys size = compare_loop size 0 xs ys

-- One round of reverseBytes.
abbrev pub swap : ℕ → ℕ → List ℕ → List ℕ
swap i j bytes = elim (get_elem? bytes i) [
  | none ↦ bytes
  | some a ↦ elim (get_elem? bytes j) [ none ↦ bytes | some b ↦ set (set bytes i b) j a ]
]

unfoldable pub reverse_loop : ℕ → ℕ → ℕ → List ℕ → List ℕ
reverse_loop zero i size bytes = bytes
reverse_loop (suc left) i size bytes = reverse_loop left (i + 1) size (swap i (size - i - 1) bytes)

unfoldable pub reverse_bytes : List ℕ → ℕ → List ℕ
unfolding reverse_loop
reverse_bytes bytes size = reverse_loop (size / 2) 0 size bytes

pub reverse_bytes_eight :
    (a b c d e f g h : ℕ)
    → reverse_bytes (a ∷ b ∷ c ∷ d ∷ e ∷ f ∷ g ∷ h ∷ []) 8 ≡ h ∷ g ∷ f ∷ e ∷ d ∷ c ∷ b ∷ a ∷ []
unfolding reverse_bytes
reverse_bytes_eight a b c d e f g h = refl
