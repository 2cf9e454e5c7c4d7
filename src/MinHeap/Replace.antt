-- ===== src/MinHeap/Replace.antt =====
-- min_heap_pop_push against min_heap_pop and min_heap_push.
use mathlib.Core.List.{Perm}
use mathlib.Core.List.Perm
use common_project_template.Base.{◌<◌, arith, get_or, Returns, Returns-map, Returns-bind, ◌>>=◌}
use common_project_template.MinHeap.{
  Callbacks, MinHeap, min_heap_pop, min_heap_push, min_heap_pop_push,
}
use common_project_template.MinHeap.Order.{IsLawful}
use common_project_template.MinHeap.Valid.{used, IsValid}
use common_project_template.MinHeap.Drain.{Popped-nr}
use common_project_template.MinHeap.PushPop.{pop-Popped, push-Holds, pop_push-Holds}

module _ {A : Type 0} (func : Callbacks A) (junk : A) (law : IsLawful func) where
  -- For a less that is a strict weak order, a swp that exchanges, and a memcpy that leaves an
  -- element copied onto itself: min_heap_pop_push on a valid heap that is not empty leaves the
  -- same elements, in some order, as a min_heap_pop and a min_heap_push of the element, and a
  -- valid heap as they do.
  pub pop_push-pop-push :
      (heap : MinHeap A) (element : A)
      → IsValid func junk law heap
      → 0 < heap.nr
      → Returns
          (λ at_once.
            IsValid func junk law at_once
            × Returns
                (λ after. IsValid func junk law after.0 × Perm (used at_once) (used after.0))
                (min_heap_pop func heap >>= λ popped. min_heap_push func popped.0 element))
          (min_heap_pop_push func heap element)
  pop_push-pop-push heap element v some_in =
      let root = get_or heap.elements 0 junk in
      Returns-map (pop_push-Holds func junk law heap element v some_in)
        λ at_once (valid, contents, size). (
          valid,
          Returns-bind (pop-Popped func junk law heap v some_in) λ r popped.
              let room : r.0.nr < r.0.size = omega (
                arith,
                Popped-nr func junk law heap r v some_in popped,
                popped.size,
                v.allocated.bounded,
              ) in
              Returns-map (push-Holds func junk law r.0 element popped.valid room)
                λ after (silent, holds). (
                  holds.valid,
                  Perm.cons_inv (
                      Perm.trans contents (
                        Perm.trans (Perm.cons element (Perm.symm popped.contents)) (
                          Perm.trans (Perm.swap root element (used r.0))
                            (Perm.cons root (Perm.symm holds.contents))))),
                ),
        )
