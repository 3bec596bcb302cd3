-- ===== src/Common/Utf8.antt =====
-- `str::from_utf8` of the Rust standard library, as a machine over the bytes.
use Prim.Native.Nat.{ℕ, zero, suc}
use mathlib.Core.Bool.{Bool, true, false, ◌&&◌}
use mathlib.Core.Option.{Option, none, some}
use mathlib.Core.List.{[], ◌∷◌}
use dllb.Common.Tests.{ltb, leb, ◌==◌, if◌then◌else◌}
use dllb.Common.Lists.{Bytes}

-- `more n lo hi`: n + 1 continuation bytes are still to come, and the next lies in lo ..= hi
pub data State : Type 0 where
  char_boundary invalid : State
  more : ℕ → ℕ → ℕ → State

abbrev pub lead : ℕ → State
lead b =
    if ltb b 0x80
    then char_boundary
    else if ltb b 0xc2
    then invalid
    else if ltb b 0xe0
    then more 0 0x80 0xbf
    else if b == 0xe0
    then more 1 0xa0 0xbf
    else if b == 0xed
    then more 1 0x80 0x9f
    else if ltb b 0xf0
    then more 1 0x80 0xbf
    else if b == 0xf0
    then more 2 0x90 0xbf
    else if ltb b 0xf4
    then more 2 0x80 0xbf
    else if b == 0xf4
    then more 2 0x80 0x8f
    else invalid

pub step : State → ℕ → State
step char_boundary b = lead b
step invalid b = invalid
step (more zero lo hi) b = if leb lo b && leb b hi then char_boundary else invalid
step (more (suc n) lo hi) b = if leb lo b && leb b hi then more n 0x80 0xbf else invalid

pub run : State → Bytes → Bool
run char_boundary [] = true
run invalid [] = false
run (more _ _ _) [] = false
run s (b ∷ bs) = run (step s b) bs

unfoldable pub is_utf8 : Bytes → Bool
unfolding run step
is_utf8 = run char_boundary

-- `str::from_utf8(bytes).ok()`
abbrev pub from_utf8 : Bytes → Option Bytes
from_utf8 bs = if is_utf8 bs then some bs else none
