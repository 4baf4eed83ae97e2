-- ===== src/Window/Runs.antt =====
-- Runs of src/window.rs at concrete packet numbers.
use tquic.Base.{◌+◌, ◌^◌, ◌≡◌, refl, true, false, ltb, ◌||◌, ◌==◌, arith}
use tquic.Window.{SeqNumWindow, default, slide, insert, contains, IsValid}
use tquic.Window.Dedup.{insert-IsValid, contains-insert, contains-insert_wide_jump}

-- 10 recorded: the upper end is still 127.
abbrev ten : SeqNumWindow
ten = record { lower = 0; window = 2 ^ 117 }

insert-ten : insert default 10 ≡ ten
unfolding insert slide
insert-ten = refl

slides : contains (insert ten 138) 10 ≡ true
unfolding insert slide contains
slides = refl

insert-IsValid_example : IsValid (insert ten 138)
insert-IsValid_example = insert-IsValid ten 138 (omega arith) (omega arith)

contains-insert_example :
    contains (insert ten 138) 12 ≡ (12 == 138 || (ltb 12 (insert ten 138).lower || contains ten 12))
contains-insert_example = contains-insert ten 138 12 (omega arith) (omega arith) (omega arith)

contains-insert_wide_jump_example :
    (contains ten (10 + 2 ^ 32) ≡ false)
    × (contains (insert ten (0 + 127 + 2 ^ 32)) (10 + 2 ^ 32) ≡ true)
contains-insert_wide_jump_example =
    contains-insert_wide_jump ten 10 (2 ^ 32) (omega arith) (omega arith) (omega arith)
      (omega arith) (omega arith) (omega arith) seen
  where
    seen : contains ten 10 ≡ true
    seen = unfold contains in refl
