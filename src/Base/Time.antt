-- ===== src/Base/Time.antt =====
-- Go's `time` as the source uses it: an instant is a count of nanoseconds, a `Duration` an `int64`
-- of them. The RFC 3339 text of an instant and the JSON text of a list of texts are the runtime's.
use package.shinzo_scheduler_service.Base.Int.{ℤ, pos, ◌-ℤ◌, ◌+ℤ◌, ◌*ℤ◌, ltb_ℤ, wrap64}
use package.shinzo_scheduler_service.Base.Tests.{if◌then◌else◌}
use Prim.Native.Nat.{ℕ, ◌-◌, ◌^◌}
use Prim.Native.String.{String}
use mathlib.Core.Bool.{Bool}
use mathlib.Core.Option.{Option}
use mathlib.Core.List.{List}

-- `time.Duration(n) * time.Second`
unfoldable pub seconds : ℤ → ℤ
seconds n = wrap64 (n *ℤ pos 1000000000)

-- `time.Duration(n) * time.Minute`
unfoldable pub minutes : ℤ → ℤ
minutes n = wrap64 (n *ℤ pos 60000000000)

-- `now.Sub(t)`, which saturates. (`time.Since(t)` is that of the current time.)
unfoldable pub since : ℤ → ℤ → ℤ
since now t =
    let d = now -ℤ t in
    if ltb_ℤ (pos (2 ^ 63 - 1)) d
    then pos (2 ^ 63 - 1)
    else if ltb_ℤ d (ℤ.negsuc (2 ^ 63 - 1))
    then ℤ.negsuc (2 ^ 63 - 1)
    else d

-- `a.After(b)`
abbrev pub after : ℤ → ℤ → Bool
after a b = ltb_ℤ b a

-- `a.Add(d)`
abbrev pub add_time : ℤ → ℤ → ℤ
add_time a d = a +ℤ d

-- The text formats that the source takes from the standard library.
pub record Runtime : Type 0 where
  -- `t.UTC().Format(time.RFC3339)` and `time.Parse(time.RFC3339, s)`
  pub format_time : ℤ → String
  pub parse_time : String → Option ℤ
  -- `json.Marshal` and `json.Unmarshal` at `[]string`
  pub encode_strings : List String → String
  pub decode_strings : String → Option (List String)
  -- `fmt.Sprintf("%d", n)` of a length
  pub show_count : ℕ → String
