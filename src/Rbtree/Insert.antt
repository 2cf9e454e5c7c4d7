-- ===== src/Rbtree/Insert.antt =====
-- rb_insert_color of lib/rbtree/rbtree.c; the callbacks of the augmented form are empty there.
pub mod Turn
pub mod Inner
pub mod Recolor
pub mod Fix
pub mod Loop
pub mod Rounds
pub mod Link
pub mod Gap
use common_project_template.Base.{ℕ, zero, suc, ◌+◌, Bool, ◌==◌, if◌then◌else◌, out_of_fuel}
use common_project_template.Command.{pure, ◌>>=◌, ◌>>◌}
use common_project_template.Rbtree.{
  Ptr, Side, left, right, other, Cmd, red, black, child, set_child, rb_parent, rb_is_black,
  rb_red_parent, rb_set_parent_color, paint_child, red_child, rotate_set_parents,
}

-- Case 3: `parent` is the `s` child of `gparent`, `tmp` its other child.
pub insert_outer : Side → (parent gparent tmp : Ptr) → Cmd (Unit {0})
insert_outer s parent gparent tmp = do
  set_child s gparent tmp
  set_child (other s) parent gparent
  paint_child tmp gparent black
  rotate_set_parents gparent parent red

-- Case 2, which becomes case 3, or case 3 alone.
pub insert_rotate : Side → (node parent gparent : Ptr) → Cmd (Unit {0})
insert_rotate s node parent gparent = do
  tmp ← child (other s) parent
  if node == tmp
      then (do
        inner ← child s node
        set_child (other s) parent inner
        set_child s node parent
        paint_child inner parent black
        rb_set_parent_color parent node red
        outer ← child (other s) node
        insert_outer s node gparent outer)
      else insert_outer s parent gparent tmp

-- Case 1, after which the loop goes on `again`, or the others. `parent` is the `s` child of `gparent`.
pub insert_case :
    (again : (node parent : Ptr) → Cmd (Unit {0}))
    → Side
    → (node parent gparent : Ptr) → Cmd (Unit {0})
insert_case again s node parent gparent = do
  uncle ← child (other s) gparent
  is_red ← red_child uncle
  if is_red
      then (do
        rb_set_parent_color uncle gparent black
        rb_set_parent_color parent gparent black
        up ← rb_parent gparent
        rb_set_parent_color gparent up red
        again gparent up)
      else insert_rotate s node parent gparent

-- The loop of `__rb_insert`.
pub insert_loop : (fuel : ℕ) → (node parent : Ptr) → Cmd (Unit {0})
insert_loop zero node parent = λ _. out_of_fuel
insert_loop (suc k) node parent =
    let again = insert_loop k in
    if parent == 0 then rb_set_parent_color node 0 black else do
      is_black ← rb_is_black parent
      if is_black then pure tt else do
        gparent ← rb_red_parent parent
        tmp ← child right gparent
        insert_case again (if parent == tmp then right else left) node parent gparent

-- A round goes up two nodes, so as many rounds as the tree has levels are enough.
pub rb_insert_color : (fuel : ℕ) → Ptr → Cmd (Unit {0})
rb_insert_color fuel node = do parent ← rb_red_parent node; insert_loop fuel node parent
