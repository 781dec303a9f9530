-- ===== src/Examples/Ranges.antt =====
-- The theorems on range sets and on waiting for a download, at concrete inputs.
use rvfs.Base.{ℕ, ◌+◌, ◌≤◌, ◌<◌, true, false, ◌&&◌, ◌||◌, not, [], none, ◌≡◌, ◌↔◌, arith, ltb, leb}
use rvfs.Ranges.{RangeSet, add, contains, gaps}
use rvfs.Ranges.Order.{IsNormal, has_byte, in_list, has_byte-add}
use rvfs.Ranges.Search.{contains_iff}
use rvfs.Ranges.Gaps.{in_list-gaps}
use rvfs.Ranges.Canonical.{add_comm}
use rvfs.Download.{Download}
use rvfs.Examples.Data.{two_parts, first_ten}

two_parts-IsNormal : IsNormal two_parts
two_parts-IsNormal = (omega arith, omega arith, (omega arith, omega arith, tt))

first_ten-IsNormal : IsNormal first_ten
first_ten-IsNormal = (omega arith, omega arith, tt)

has_byte-add_example :
    has_byte 17 (add 12 8 two_parts) ≡ (has_byte 17 two_parts || (leb 12 17 && ltb 17 (12 + 8)))
has_byte-add_example = has_byte-add 17 12 8 two_parts two_parts-IsNormal

contains_iff_example :
    (contains 21 5 two_parts ≡ true) ↔ ((b : ℕ) → 21 ≤ b → b < 21 + 5 → has_byte b two_parts ≡ true)
contains_iff_example = contains_iff 21 5 two_parts two_parts-IsNormal

in_list-gaps_example : in_list 16 (gaps 40 two_parts) ≡ (ltb 16 40 && not (has_byte 16 two_parts))
in_list-gaps_example = in_list-gaps 16 40 two_parts two_parts-IsNormal

add_comm_example : add 12 8 (add 40 2 two_parts) ≡ add 40 2 (add 12 8 two_parts)
add_comm_example = add_comm 12 8 40 2 two_parts two_parts-IsNormal

-- A file of ten bytes with the given ranges, and one reader.
abbrev download : RangeSet → Download
download rs = record {
  path = "photo";
  ranges = rs;
  total_size = 10;
  open_count = 1;
  prefetch = false;
  seq_pos = 0;
  last_read_pos = 0;
  error = none;
  done = false;
  goroutines = [];
  next_gid = 0;
}
