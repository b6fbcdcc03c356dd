-- ===== src/Base/Utf8.antt =====
-- The bytes of a Go string literal from its code points.
use Prim.Native.Nat.{ℕ, ◌+◌, ◌/◌, ◌%◌}
use mathlib.Core.List.{List, [], ◌∷◌}
use go_moa.Base.Tests.{if◌then◌else◌, ltb}
use go_moa.Base.Strings.{Text}

abbrev pub utf8 : List ℕ → Text
utf8 [] = []
utf8 (c ∷ cs) =
    if ltb c 0x80
    then c ∷ utf8 cs
    else if ltb c 0x800
    then (0xC0 + c / 0x40) ∷ (0x80 + c % 0x40) ∷ utf8 cs
    else if ltb c 0x10000
    then (0xE0 + c / 0x1000) ∷ (0x80 + c / 0x40 % 0x40) ∷ (0x80 + c % 0x40) ∷ utf8 cs
    else (0xF0 + c / 0x40000)
      ∷ (0x80 + c / 0x1000 % 0x40)
      ∷ (0x80 + c / 0x40 % 0x40)
      ∷ (0x80 + c % 0x40)
      ∷ utf8 cs
