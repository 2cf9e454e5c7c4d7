-- ===== src/Rbtree/Erase/Tests.antt =====
-- Runs of rb_erase on small stores.
use common_project_template.Base.{
  ℕ, ◌≡◌, refl, ◌||◌, ◌==◌, if◌then◌else◌, Run, ok, fault, out_of_fuel,
}
use common_project_template.Rbtree.{
  Ptr, State, get_pc, put_pc, child, set_child, rb_parent, rb_color, rb_is_black, rb_is_red,
  rb_set_black, rb_set_parent, rb_set_parent_color, paint_child, red_child, change_child,
  rotate_set_parents, parent_of, color_of,
}
use common_project_template.Rbtree.Erase.{
  erase_red_sibling, erase_flip, erase_inner, erase_outer, erase_black_sibling, erase_case,
  erase_loop, find_successor, erase_left_empty, erase_right_empty, erase_replace, erase_full,
  erase_node, rb_erase,
}

-- A root at 16 with children at 8 and 24, all black but where `pc` says otherwise, and one more at 32.
abbrev three : (pc : ℕ) → (below : Ptr) → State
three pc below = record {
  mapped = λ a. (a == 8) || (a == 16) || (a == 24) || (a == 32);
  parent_color = λ a. if a == 16 then 1 else (if a == 32 then 24 else pc);
  rb_left = λ a. if a == 16 then 8 else 0;
  rb_right = λ a. if a == 16 then 24 else (if a == 24 then below else 0);
  rb_node = 16;
}

-- The parent and colour, and the children, of a node after a run.
look : Ptr → Run (Unit {0} × State) → Run (ℕ × Ptr × Ptr)
look p (ok (done, st)) = ok (st.parent_color p, st.rb_left p, st.rb_right p)
look p fault = fault
look p out_of_fuel = out_of_fuel

-- The successor takes the place of the root.
root_erased : look 24 (rb_erase 3 16 (three 16 0)) ≡ ok (1, 8, 0)
unfolding look rb_erase erase_node erase_full erase_replace erase_left_empty erase_right_empty
    find_successor erase_loop erase_case erase_black_sibling erase_red_sibling erase_inner
    erase_outer erase_flip child get_pc put_pc rb_set_parent rb_parent rb_color rb_is_black
    rb_is_red rb_set_black parent_of color_of change_child set_child rb_set_parent_color paint_child
    red_child rotate_set_parents
root_erased = refl

-- A black leaf whose black sibling has no red child: the sibling becomes red.
leaf_erased : look 24 (rb_erase 3 8 (three 17 0)) ≡ ok (16, 0, 0)
unfolding look rb_erase erase_node erase_full erase_replace erase_left_empty erase_right_empty
    find_successor erase_loop erase_case erase_black_sibling erase_red_sibling erase_inner
    erase_outer erase_flip child get_pc put_pc rb_set_parent rb_parent rb_color rb_is_black
    rb_is_red rb_set_black parent_of color_of change_child set_child rb_set_parent_color paint_child
    red_child rotate_set_parents
leaf_erased = refl

-- A black leaf whose black sibling has a red child: the sibling becomes the root.
leaf_rotated : look 24 (rb_erase 4 8 (three 17 32)) ≡ ok (1, 16, 32)
unfolding look rb_erase erase_node erase_full erase_replace erase_left_empty erase_right_empty
    find_successor erase_loop erase_case erase_black_sibling erase_red_sibling erase_inner
    erase_outer erase_flip child get_pc put_pc rb_set_parent rb_parent rb_color rb_is_black
    rb_is_red rb_set_black parent_of color_of change_child set_child rb_set_parent_color paint_child
    red_child rotate_set_parents
leaf_rotated = refl
