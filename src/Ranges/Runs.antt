-- ===== src/Ranges/Runs.antt =====
-- Runs of src/ranges.rs, and its theorems at concrete sets.
use tquic.Base.{◌≡◌, refl, [], ◌∷◌, some, arith, ◌||◌}
use tquic.Ranges.{
  RangeSet, insert, insert_next, insert_from, place, absorb, remove, remove_next, cut_prev, carve,
  is_empty, filter, contains, remove_until,
}
use tquic.Ranges.Map.{bt_insert, bt_remove, prev_to, next_to, next_after}
use tquic.Ranges.Order.{covers, inside}
use tquic.Ranges.Insert.{IsValid, covers-insert}
use tquic.Ranges.Remove.{Removed, remove-Removed}
use tquic.Ranges.Until.{Above, remove_until-Above}
use tquic.Ranges.Query.{contains-covers, Filtered, filter-Filtered}

-- [3, 5) and [7, 11), at most two ranges.
abbrev two : RangeSet
two = record { set = (3, 5) ∷ (7, 11) ∷ []; capacity = 2 }

insert_joins : (insert two 5 8).set ≡ (3, 11) ∷ []
unfolding insert insert_next insert_from place absorb bt_insert bt_remove prev_to next_to
insert_joins = refl

insert_evicts : (insert two 13 16).set ≡ (7, 11) ∷ (13, 16) ∷ []
unfolding insert insert_next insert_from place absorb bt_insert bt_remove prev_to next_to
insert_evicts = refl

remove_inner : (remove two 8 9).set ≡ (3, 5) ∷ (7, 8) ∷ (9, 11) ∷ []
unfolding remove remove_next is_empty cut_prev carve bt_insert bt_remove prev_to next_to
remove_inner = refl

filter_between : filter two 4 10 ≡ some (5, 7)
unfolding filter is_empty prev_to next_after
filter_between = refl

abbrev roomy : RangeSet
roomy = record two { capacity = 9 }

covers-insert_example :
    IsValid (insert roomy 5 8)
    × (covers (insert roomy 5 8).set 6 ≡ (inside 5 8 6 || covers two.set 6))
covers-insert_example = covers-insert roomy 5 8 6 (omega arith) (omega arith)

remove-Removed_example : Removed two.set (remove two 8 9).set 8 9
remove-Removed_example = remove-Removed two 8 9 (omega arith)

remove_until-Above_example : Above two.set 8 (remove_until two 8).set
remove_until-Above_example = remove_until-Above two 8 (omega arith) (omega arith) (omega arith)

contains-covers_example : contains two 4 ≡ covers two.set 4
contains-covers_example = contains-covers two 4 (omega arith)

filter-Filtered_example : Filtered two.set 4 10 6 (filter two 4 10)
filter-Filtered_example = filter-Filtered two 4 10 6 (omega arith) (omega arith)
