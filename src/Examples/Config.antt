-- ===== src/Examples/Config.antt =====
-- The theorems on byte sizes at concrete inputs.
use rvfs.Base.{[], ◌∷◌, some, pos, negsuc, ◌≡◌, refl, arith}
use rvfs.Config.Decimal.{
  trim_space, trim_left, trim_right, is_space, parse_int, read_number, read_digits, positive_of,
  is_digit,
}
use rvfs.Config.Sizes.{
  marshal_text, unmarshal_text, set_byte_size, is_zero_text, split_last, push_front, with_suffix,
  by_unit, unit_of, scaled, times, wrap,
}
use rvfs.Config.RoundTrip.{unmarshal-marshal}
use rvfs.Config.Flags.{set-unmarshal}

unmarshal-marshal_example :
    unmarshal_text (marshal_text (negsuc 2_097_151)) ≡ some (negsuc 2_097_151)
unmarshal-marshal_example = unmarshal-marshal (negsuc 2_097_151) (omega arith)

-- " 4k".
set-unmarshal_example : set_byte_size (32 ∷ 52 ∷ 107 ∷ []) ≡ some (pos 4096)
unfolding unmarshal_text trim_space trim_left trim_right is_space is_zero_text split_last push_front
    with_suffix by_unit unit_of scaled parse_int read_number read_digits positive_of is_digit times
    wrap
set-unmarshal_example = set-unmarshal (32 ∷ 52 ∷ 107 ∷ []) (pos 4096) (λ e. cc) refl
