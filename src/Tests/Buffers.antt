-- ===== src/Tests/Buffers.antt =====
-- The theorems on the buffers of iobuf.c, applied.
use mudit_m.Base.{ℕ, ◌≡◌, List, [], ◌∷◌, arith, codes, drop}
use mudit_m.Iobuf.{Iobuf, contents, pop_iobuf}
use mudit_m.Iobuf.Bounds.{IsValid}
use mudit_m.Iobuf.Contents.{contents-pop_iobuf}
use mathlib.Core.Option.{map}
use mudit_m.Iobuf.Queue.{
  Use, appends, prints, pops, pops_all, use_all, use_all_queue, use_all-Refines,
}
use mudit_m.Tests.Sides.{buffer, buffer-IsValid}

abbrev greeting : Iobuf
greeting = buffer (codes "hello")

greeting-IsValid : IsValid greeting
greeting-IsValid = buffer-IsValid (codes "hello") (omega arith)

abbrev long_text : List ℕ
long_text = codes "a text of sixty characters, which is a text of sixty letters"

contents-pop_iobuf_example : contents (pop_iobuf greeting 2) ≡ drop 2 (contents greeting)
contents-pop_iobuf_example = contents-pop_iobuf greeting 2 greeting-IsValid

abbrev busy : List Use
busy = prints long_text ∷ pops 7 ∷ appends (codes "more") ∷ pops_all ∷ prints (codes "bye") ∷ []

use_all-Refines_example :
    map contents (use_all busy greeting) ≡ use_all_queue greeting.length busy (contents greeting)
use_all-Refines_example =
    use_all-Refines busy greeting greeting-IsValid (omega arith, (omega arith, tt))
