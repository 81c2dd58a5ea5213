-- ===== src/Core/Page.antt =====
-- paginate of core/engine.go: a page of a list of names, and the token of the next one. A Go int
-- has 64 bits; `end` cannot overflow, since `start` is at most the length and `size` at most `max`.
pub mod Walk
use cloud_tasks_emulator.Base.{
  ℕ, ◌+◌, Bool, true, false, Option, none, some, List, [], ◌++◌, ltb, leb, ◌==◌, if◌then◌else◌,
  length, take, drop, min,
}
use cloud_tasks_emulator.Base.Int.{ℤ, pos, negsuc}
use cloud_tasks_emulator.Base.Bytes.{Bytes, is_empty}
use cloud_tasks_emulator.Std.Decimal.{format_nat, atoi}
use cloud_tasks_emulator.Std.Base64
use cloud_tasks_emulator.Core.Status.{
  Result, ok, fail, ◌>>=◌, or_fail, invalid_argument, invalid_page_token,
}

abbrev pub max_list_queues_page_size : ℕ
max_list_queues_page_size = 9800

abbrev pub max_list_tasks_page_size : ℕ
max_list_tasks_page_size = 1000

-- A negative position is refused.
abbrev from_start : ℤ → Option ℕ
from_start (pos n) = some n
from_start (negsuc n) = none

-- The position that a token stands for.
unfoldable pub page_start : Bytes → Result ℕ
page_start token = if is_empty token then ok 0 else (do
  raw ← or_fail (Base64.decode token) invalid_argument (invalid_page_token token)
  n ← or_fail (atoi raw) invalid_argument (invalid_page_token token)
  or_fail (from_start n) invalid_argument (invalid_page_token token))

-- `size <= 0 || size > max` takes the maximum.
unfoldable pub effective_size : ℤ → ℕ → ℕ
effective_size (pos n) max = if n == 0 then max else if ltb max n then max else n
effective_size (negsuc n) max = max

-- The token of position `end`.
unfoldable pub page_token_of : ℕ → Bytes
page_token_of end = Base64.encode (format_nat end)

unfoldable pub page_at : List Bytes → ℕ → ℕ → List Bytes × Bytes
unfolding page_token_of
page_at names start size =
    let from = min start (length names) in
    if leb (length names) (from + size)
    then (drop from names, [])
    else (take size (drop from names), page_token_of (from + size))

unfoldable pub paginate : List Bytes → ℤ → Bytes → ℕ → Result (List Bytes × Bytes)
unfolding page_start effective_size page_at
paginate names page_size page_token max = do
  start ← page_start page_token
  ok (page_at names start (effective_size page_size max))
