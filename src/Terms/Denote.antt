-- ===== src/Terms/Denote.antt =====
-- The operators of SMT-LIB bit-vectors that `vexa::value` builds (the `bw::Kind`s of
-- src/value/value.cpp), as functions on numbers below 2 ^ w.
use Prim.Native.Nat.{bit_and, bit_or, bit_xor}
use vexa.Prelude.{
  ℕ, ◌+◌, ◌-◌, ◌*◌, ◌/◌, ◌%◌, ◌^◌, Bool, true, false, not, ◌&&◌, ◌||◌, ltb, leb, ◌==◌,
  if◌then◌else◌,
}

pub data Unary : Type 0 where
  bool_not bv_neg bv_not : Unary

pub data Binary : Type 0 where
  bv_add bv_sub bv_mul bv_sdiv bv_srem bv_udiv bv_urem : Binary
  bv_and bv_or bv_xor bv_shl bv_shr bv_ashr bv_concat : Binary
  equal distinct bv_slt bv_sle bv_sgt bv_sge bv_ult bv_ule bv_ugt bv_uge : Binary

abbrev pub wrap : ℕ → ℕ → ℕ
wrap w n = n % 2 ^ w

-- the Boolean as 0 or 1
abbrev pub flag : Bool → ℕ
flag b = if b then 1 else 0

-- the sign bit
abbrev pub is_negative : ℕ → ℕ → Bool
is_negative w a = leb (2 ^ (w - 1)) a

abbrev pub negate : ℕ → ℕ → ℕ
negate w a = wrap w (2 ^ w - a)

abbrev pub complement : ℕ → ℕ → ℕ
complement w a = 2 ^ w - 1 - a

abbrev pub magnitude : ℕ → ℕ → ℕ
magnitude w a = if is_negative w a then negate w a else a

-- Division by zero gives all ones, and the remainder is then the dividend.
abbrev pub udiv : ℕ → ℕ → ℕ → ℕ
udiv w a b = if b == 0 then 2 ^ w - 1 else a / b

abbrev pub urem : ℕ → ℕ → ℕ
urem a b = if b == 0 then a else a % b

-- A shift by the width or more gives zero.
abbrev pub shift_left : ℕ → ℕ → ℕ → ℕ
shift_left w a b = if ltb b w then wrap w (a * 2 ^ b) else 0

abbrev pub shift_right : ℕ → ℕ → ℕ → ℕ
shift_right w a b = if ltb b w then a / 2 ^ b else 0

abbrev pub signed_lt : ℕ → ℕ → ℕ → Bool
signed_lt w a b =
    if is_negative w a then not (is_negative w b) || ltb a b else not (is_negative w b) && ltb a b

abbrev pub sign_extend : ℕ → ℕ → ℕ → ℕ
sign_extend w n a = if is_negative w a then wrap (w + n) (a + 2 ^ (w + n) - 2 ^ w) else a

abbrev pub denote_unary : Unary → ℕ → ℕ → ℕ
denote_unary bool_not w a = flag (a == 0)
denote_unary bv_neg w a = negate w a
denote_unary bv_not w a = complement w a

abbrev pub denote_binary : Binary → ℕ → ℕ → ℕ → ℕ → ℕ
denote_binary bv_add w v a b = wrap w (a + b)
denote_binary bv_sub w v a b = wrap w (a + 2 ^ w - b)
denote_binary bv_mul w v a b = wrap w (a * b)
denote_binary bv_sdiv w v a b =
    let q = udiv w (magnitude w a) (magnitude w b) in
    if is_negative w a
    then if is_negative w b then wrap w q else negate w q
    else if is_negative w b
    then negate w q
    else wrap w q
denote_binary bv_srem w v a b =
    let r = urem (magnitude w a) (magnitude w b) in if is_negative w a then negate w r else wrap w r
denote_binary bv_udiv w v a b = wrap w (udiv w a b)
denote_binary bv_urem w v a b = wrap w (urem a b)
denote_binary bv_and w v a b = wrap w (bit_and a b)
denote_binary bv_or w v a b = wrap w (bit_or a b)
denote_binary bv_xor w v a b = wrap w (bit_xor a b)
denote_binary bv_shl w v a b = shift_left w a b
denote_binary bv_shr w v a b = wrap w (shift_right w a b)
denote_binary bv_ashr w v a b =
    if is_negative w a
    then wrap w (complement w (shift_right w (complement w a) b))
    else wrap w (shift_right w a b)
denote_binary bv_concat w v a b = a * 2 ^ v + b
denote_binary equal w v a b = flag (a == b)
denote_binary distinct w v a b = flag (not (a == b))
denote_binary bv_slt w v a b = flag (signed_lt w a b)
denote_binary bv_sle w v a b = flag (not (signed_lt w b a))
denote_binary bv_sgt w v a b = flag (signed_lt w b a)
denote_binary bv_sge w v a b = flag (not (signed_lt w a b))
denote_binary bv_ult w v a b = flag (ltb a b)
denote_binary bv_ule w v a b = flag (leb a b)
denote_binary bv_ugt w v a b = flag (ltb b a)
denote_binary bv_uge w v a b = flag (leb b a)

abbrev pub is_comparison : Binary → Bool
is_comparison equal = true
is_comparison distinct = true
is_comparison bv_slt = true
is_comparison bv_sle = true
is_comparison bv_sgt = true
is_comparison bv_sge = true
is_comparison bv_ult = true
is_comparison bv_ule = true
is_comparison bv_ugt = true
is_comparison bv_uge = true
is_comparison _ = false

abbrev pub size_unary : Unary → ℕ → ℕ
size_unary bool_not w = 1
size_unary k w = w

abbrev pub size_binary : Binary → ℕ → ℕ → ℕ
size_binary bv_concat w v = w + v
size_binary k w v = if is_comparison k then 1 else w

-- Only a concatenation takes operands of two widths.
abbrev pub sizes_fit : Binary → ℕ → ℕ → Bool
sizes_fit bv_concat w v = true
sizes_fit k w v = w == v
