-- ===== src/Prelude/Utf8.antt =====
-- `String::from_utf8`: the well-formed byte sequences of UTF-8 (RFC 3629), by an automaton.
use mathlib.Core.List.{foldl}
use arch_db.Prelude.{
  ℕ, ◌≡◌, Bool, true, false, ◌&&◌, Option, none, some, List, arith, ltb, leb, ◌==◌, if◌then◌else◌,
}
use arch_db.Prelude.Str.{Str}

-- What the bytes read so far ask of the next one.
pub data Utf8State : Type 0 where
  start one two three after_e0 after_ed after_f0 after_f4 bad : Utf8State

within : ℕ → ℕ → ℕ → Bool
within lo hi b = leb lo b && leb b hi

utf8_first : ℕ → Utf8State
unfolding within
utf8_first b =
    if ltb b 128
    then start
    else if within 0xc2 0xdf b
    then one
    else if b == 0xe0
    then after_e0
    else if b == 0xed
    then after_ed
    else if within 0xe1 0xef b
    then two
    else if b == 0xf0
    then after_f0
    else if within 0xf1 0xf3 b
    then three
    else if b == 0xf4
    then after_f4
    else bad

utf8_step : Utf8State → ℕ → Utf8State
unfolding utf8_first within
utf8_step start b = utf8_first b
utf8_step one b = if within 0x80 0xbf b then start else bad
utf8_step two b = if within 0x80 0xbf b then one else bad
utf8_step three b = if within 0x80 0xbf b then two else bad
utf8_step after_e0 b = if within 0xa0 0xbf b then one else bad
utf8_step after_ed b = if within 0x80 0x9f b then one else bad
utf8_step after_f0 b = if within 0x90 0xbf b then two else bad
utf8_step after_f4 b = if within 0x80 0x8f b then two else bad
utf8_step bad b = bad

is_start : Utf8State → Bool
is_start start = true
is_start _ = false

unfoldable pub is_utf8 : Str → Bool
unfolding utf8_step is_start
is_utf8 s = is_start (foldl utf8_step start s)

-- `String::from_utf8(bytes).ok()`
unfoldable pub from_utf8 : List ℕ → Option Str
from_utf8 bytes = if is_utf8 bytes then some bytes else none

pub from_utf8-some : (s : Str) → is_utf8 s ≡ true → from_utf8 s ≡ some s
unfolding from_utf8
from_utf8-some s h = rw h

pub from_utf8-inv : (s t : Str) → from_utf8 s ≡ some t → (s ≡ t) × (is_utf8 t ≡ true)
unfolding from_utf8
from_utf8-inv s t h = ground arith
