-- ===== src/Common/Money.antt =====
-- libs/common/src/mcw_common/money.py: amounts as text. `parse_amount`, which stands on Python's
-- decimal module, is left out.
use Prim.Native.String.{◌∷◌}
use mini_crypto_wallet.Base.{ℕ, zero, suc, ◌-◌, ◌/◌, ◌%◌, ◌^◌, ◌==◌, String, if◌then◌else◌}
use mini_crypto_wallet.Base.Int.{ℤ, pos, negsuc}
use mini_crypto_wallet.Base.Text.{◌<>◌, show_ℕ}

str_length : String → ℕ
str_length String.[] = 0
str_length (c ∷ s) = suc (str_length s)

zeros : ℕ → String → String
zeros zero s = s
zeros (suc n) s = "0" <> zeros n s

-- `f"{n:0{width}d}"`
unfoldable pub zero_padded : ℕ → ℕ → String
unfolding str_length zeros
zero_padded width n = zeros (width - str_length (show_ℕ n)) (show_ℕ n)

-- The magnitude, in whole units and a fraction of exactly `decimals` digits.
unfoldable pub format_magnitude : ℕ → ℕ → String
format_magnitude magnitude decimals =
    if decimals == 0
    then show_ℕ magnitude
    else show_ℕ (magnitude / 10 ^ decimals)
      <> "."
      <> zero_padded decimals (magnitude % 10 ^ decimals)

unfoldable pub format_amount : ℤ → ℕ → String
format_amount (pos n) decimals = format_magnitude n decimals
format_amount (negsuc n) decimals = "-" <> format_magnitude (suc n) decimals
