-- ===== src/Gateway/Auth/Cidr.antt =====
-- The masks of `ip_in_cidr` of auth.rs.
use ngen_orca.Gateway.Auth.{bit_and, shifted_ones, in_prefix, ip_in_cidr, IpAddr, v4, v6}
use native.Mathlib.Nat.{
  add-mul-mod_self_right, div-div-eq-div-mul, div-eq_of_lt, mul-div_cancel, mod-eq_of_lt, pow-succ',
  pow-le-pow_right,
}
use ngen_orca.Base.{
  ℕ, ◌^◌, ◌≤◌, ◌-◌, arith, ◌≡◌, ◌<◌, suc, ◌*◌, ◌/◌, zero, ◌%◌, ◌+◌, ◌∙◌, ap, sym, refl,
  if◌then◌else◌, true, ◌==◌, ◌↔◌, Bool-cases, ltb, inl, inr, Bool, false, ==_iff,
}

-- The ones above the lowest k bits.
abbrev mask : ℕ → ℕ → ℕ
mask w k = 2 ^ w - 2 ^ k

pow_pos : (k : ℕ) → 1 ≤ 2 ^ k
pow_pos zero = omega arith
pow_pos (suc k) = let h = pow_pos k in rw (pow-succ' 2 k) (omega arith)

pow_mono : (k w : ℕ) → k ≤ w → 2 ^ k ≤ 2 ^ w
pow_mono k w h = pow-le-pow_right (omega arith) h

mul_mask : (d c a b : ℕ) → b ≡ suc c → a ≡ d + suc c → (a - 1) * b ≡ d + c * a
mul_mask d c a b e f = let e' : a - 1 ≡ d + c = omega arith in rw (e', e, f) (grind arith)

mod_mask : (a b : ℕ) → 1 ≤ b → b ≤ a → (a - 1) * b % a ≡ a - b
mod_mask a b h l =
    let e : (a - 1) * b ≡ (a - b) + (b - 1) * a =
      mul_mask (a - b) (b - 1) a b (omega arith) (omega arith) in
    let m : (a - b + (b - 1) * a) % a ≡ (a - b) % a = add-mul-mod_self_right (a - b) (b - 1) a in
    ap (λ k. k % a) e ∙ m ∙ mod-eq_of_lt (omega arith)

shifted_ones-mask : (w k : ℕ) → k ≤ w → shifted_ones w k ≡ mask w k
unfolding shifted_ones
shifted_ones-mask w k h = mod_mask (2 ^ w) (2 ^ k) (pow_pos k) (pow_mono k w h)

bit_and-mask : (w k a : ℕ) → k ≤ w → a < 2 ^ w → bit_and w a (mask w k) ≡ a / 2 ^ k * 2 ^ k
unfolding bit_and
bit_and-mask zero zero a h l = omega arith
bit_and-mask zero (suc k) a h l = absurd (omega arith)
bit_and-mask (suc w) zero a h l =
    let p = pow-succ' 2 w in
    let q = pow_pos w in
    let half : mask (suc w) 0 / 2 ≡ mask w 0 = omega arith in
    let low : mask (suc w) 0 % 2 ≡ 1 = omega arith in
    let ih = bit_and-mask w 0 (a / 2) (omega arith) (omega arith) in
    rw (half, low, ih) (omega arith)
bit_and-mask (suc w) (suc k) a h l =
    let p = pow-succ' 2 w in
    let q = pow-succ' 2 k in
    let le = pow_mono k w (omega arith) in
    let half : mask (suc w) (suc k) / 2 ≡ mask w k = omega arith in
    let low : mask (suc w) (suc k) % 2 ≡ 0 = omega arith in
    let ih = bit_and-mask w k (a / 2) (omega arith) (omega arith) in
    let d : a / 2 / 2 ^ k ≡ a / 2 ^ suc k =
      div-div-eq-div-mul a 2 (2 ^ k) ∙ ap (λ m. a / m) (sym q) in
    rw (half, low, ih, d, q) (grind arith)

bit_and_zero : (w a : ℕ) → bit_and w a 0 ≡ 0
unfolding bit_and
bit_and_zero zero a = refl
bit_and_zero (suc w) a =
    let h : bit_and w (a / 2) (0 / 2) ≡ 0 = bit_and_zero w (a / 2) in rw h (omega arith)

-- The mask that the code makes keeps the bits of the prefix.
masked :
    (w p a : ℕ)
    → p ≤ w
    → a < 2 ^ w
    → bit_and w a (if p == 0 then 0 else shifted_ones w (w - p)) ≡ a / 2 ^ (w - p) * 2 ^ (w - p)
masked w zero a h l =
    let none_left : a / 2 ^ w ≡ 0 = div-eq_of_lt l in
    let all_bits : w - 0 ≡ w = omega arith in
    let zero_bits = bit_and_zero w a in rw (zero_bits, all_bits, none_left) (omega arith)
masked w (suc p) a h l =
    let e = shifted_ones-mask w (w - suc p) (omega arith) in
    let nonzero : (suc p == 0) ≡ false = ground arith in
    rw (nonzero, e) (bit_and-mask w (w - suc p) a (omega arith) l)

same_multiples : (x y m : ℕ) → 1 ≤ m → ((x * m == y * m) ≡ true) ↔ (x ≡ y)
same_multiples x y m pos = (
  λ h.
      let e : x * m ≡ y * m = (==_iff (x * m) (y * m)).0 h in
      sym (mul-div_cancel x pos) ∙ ap (λ k. k / m) e ∙ mul-div_cancel y pos,
  λ e. (==_iff (x * m) (y * m)).1 (ap (λ k. k * m) e),
)

in_prefix_iff :
    (w a b p : ℕ)
    → a < 2 ^ w
    → b < 2 ^ w
    → (in_prefix w a b p ≡ true) ↔ ((p ≤ w) × (a / 2 ^ (w - p) ≡ b / 2 ^ (w - p)))
unfolding in_prefix
in_prefix_iff w a b p ha hb = elim (Bool-cases (ltb w p)) [
  | inl e ↦
      let far : p ≤ w → ⊥ = λ le. ground arith in
      rw e (λ (h : ◌≡◌ {A = Bool} false true). absurd cc, λ h. absurd (far h.0))
  | inr e ↦
      let le : p ≤ w = ground arith in
      let ma = masked w p a le ha in
      let mb = masked w p b le hb in
      let m = 2 ^ (w - p) in
      let x = a / m in
      let y = b / m in
      let pos = pow_pos (w - p) in
      rw (e, ma, mb)
        (λ h. (le, (same_multiples x y m pos).0 h), λ h. (same_multiples x y m pos).1 h.1)
]

-- An address within its bits.
unfoldable pub Fits : IpAddr → Type 0
Fits (v4 a) = a < 2 ^ 32
Fits (v6 a) = a < 2 ^ 128

-- Two addresses of one family that agree on their first bits.
unfoldable pub SamePrefix : IpAddr → IpAddr → ℕ → Type 0
SamePrefix (v4 a) (v4 b) p = (p ≤ 32) × (a / 2 ^ (32 - p) ≡ b / 2 ^ (32 - p))
SamePrefix (v6 a) (v6 b) p = (p ≤ 128) × (a / 2 ^ (128 - p) ≡ b / 2 ^ (128 - p))
SamePrefix (v4 _) (v6 _) p = ⊥
SamePrefix (v6 _) (v4 _) p = ⊥

-- For addresses that fit their 32 or 128 bits, `ip_in_cidr` holds just if the address and the network are
-- of one family, the length is at most its number of bits, and the two agree on that many first bits.
pub ip_in_cidr_iff :
    (a b : IpAddr) (p : ℕ) → Fits a → Fits b → (ip_in_cidr a b p ≡ true) ↔ SamePrefix a b p
unfolding ip_in_cidr Fits SamePrefix
ip_in_cidr_iff (v4 a) (v4 b) p ha hb = in_prefix_iff 32 a b p ha hb
ip_in_cidr_iff (v6 a) (v6 b) p ha hb = in_prefix_iff 128 a b p ha hb
ip_in_cidr_iff (v4 a) (v6 b) p ha hb = (λ e. absurd cc, λ e. absurd e)
ip_in_cidr_iff (v6 a) (v4 b) p ha hb = (λ e. absurd cc, λ e. absurd e)
