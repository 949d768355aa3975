-- ===== src/Message/View.antt =====
-- include/erl/_impl/net/message/reader.hpp: `MessageView`, a span with a read position.
use cpp26_experiments.Base.{
  ℕ, ◌+◌, ◌≡◌, ◌++◌, Option, none, some, arith, leb, if◌then◌else◌, Bytes, length, take, drop,
  append_assoc, length-append, take_append, drop_append,
}

pub record View : Type 0 where
  pub buffer : Bytes
  pub cursor : ℕ

-- There is no bounds check: reading a span that goes past the end is undefined.
unfoldable pub read : ℕ → View → Option (Bytes × View)
read n v =
    if leb (v.cursor + n) (length v.buffer)
    then some (take n (drop v.cursor v.buffer), record v { cursor = v.cursor + n })
    else none

-- `reader.buffer.subspan(reader.cursor)`
abbrev pub remainder : View → Bytes
remainder v = drop v.cursor v.buffer

-- A view whose read position stands between `before` and `after`.
abbrev pub between : Bytes → Bytes → View
between before after = record { buffer = before ++ after; cursor = length before }

pub remainder-between : (before after : Bytes) → remainder (between before after) ≡ after
remainder-between before after = drop_append _ before after (omega arith)

-- A read takes the next bytes and moves the position over them.
pub read-between :
    (before bytes after : Bytes) (n : ℕ)
    → n ≡ length bytes
    → read n (between before (bytes ++ after)) ≡ some (bytes, between (before ++ bytes) after)
unfolding read
read-between before bytes after n h = ground (
  arith,
  length-append before (bytes ++ after),
  length-append bytes after,
  length-append before bytes,
  append_assoc before bytes after,
  drop_append (length before) before (bytes ++ after),
  take_append n bytes after,
)
