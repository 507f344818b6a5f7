-- ===== src/Onchain/Strings.antt =====
-- `decodeAbiString` of scripts/validators/onchain-validator.js: a string that a contract returned.
-- `decode_utf8` is Node's `Buffer.toString('utf8')`.
use vinuchain_lists.Prelude.{
  ℕ, ◌+◌, ◌-◌, ◌*◌, false, ◌&&◌, Option, none, some, List, [], ◌∷◌, reverse, Text, codes, text_eq,
  length, take, drop, leb, ltb, ◌==◌, if◌then◌else◌, trim, Outcome, ok, threw,
}
use vinuchain_lists.Numbers.{JsNumber, int, parse_int_16, hex_digit}
use vinuchain_lists.Onchain.Rpc.{RpcValue, absent, str, other, Failure, type_error}

-- `Buffer.from(t, 'hex')`: whole pairs of digits, up to the first that is none.
unfoldable pub hex_bytes : Text → List ℕ
hex_bytes (h ∷ l ∷ t) = elim (hex_digit h) [
  | none ↦ []
  | some a ↦ elim (hex_digit l) [ none ↦ [] | some b ↦ (a * 16 + b) ∷ hex_bytes t ]
]
hex_bytes _ = []

drop_zeros : Text → Text
drop_zeros [] = []
drop_zeros (c ∷ t) = if c == 0 then drop_zeros t else c ∷ t

-- `.replace(/\u0000+$/g, '')`
unfoldable pub strip_nuls : Text → Text
unfolding drop_zeros
strip_nuls t = reverse (drop_zeros (reverse t))

-- `t || null`
unfoldable pub or_null : Text → Option Text
or_null [] = none
or_null (c ∷ t) = some (c ∷ t)

module _ (decode_utf8 : List ℕ → Text) where
  unfoldable pub decode_bytes32 : Text → Option Text
  unfolding hex_bytes strip_nuls trim or_null
  decode_bytes32 digits = or_null (trim (strip_nuls (decode_utf8 (hex_bytes digits))))

  -- The bytes of a dynamic string whose length field says `len`, if that many digits are there.
  unfoldable pub decode_dynamic : Text → JsNumber → Option Text
  unfolding hex_bytes
  decode_dynamic digits (int false len) =
      if ltb 0 len && leb (len * 2) (length digits - 128)
      then some (decode_utf8 (hex_bytes (take (len * 2) (drop 128 digits))))
      else none
  decode_dynamic digits _ = none

  -- The dynamic string if there is one, else the fallback.
  unfoldable pub or_bytes32 : Text → Option Text → Option Text
  unfolding decode_bytes32
  or_bytes32 digits (some t) = some t
  or_bytes32 digits none = decode_bytes32 digits

  unfoldable pub decode_digits : Text → Option Text
  unfolding decode_dynamic or_bytes32 parse_int_16
  decode_digits digits = or_bytes32 digits (
      if leb 128 (length digits)
      then decode_dynamic digits (parse_int_16 (take 64 (drop 64 digits)))
      else none)

  -- `none` is `null`.
  unfoldable pub decode_abi_string : RpcValue → Outcome Failure (Option Text)
  unfolding decode_digits
  decode_abi_string absent = ok none
  decode_abi_string other = threw type_error
  decode_abi_string (str []) = ok none
  decode_abi_string (str (c ∷ t)) =
      if text_eq (c ∷ t) (codes "0x") then ok none else ok (decode_digits (drop 2 (c ∷ t)))
