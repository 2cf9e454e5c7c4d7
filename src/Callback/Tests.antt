-- ===== src/Callback/Tests.antt =====
-- The table of lib/callback/callback.c at concrete addresses, and the theorem there.
use common_project_template.Base.{
  ℕ, ◌+◌, ◌*◌, ◌<◌, ◌≡◌, refl, List, [], ◌∷◌, some, ok, arith, Returns,
}
use common_project_template.ListHead.{Ptr, Heap}
use common_project_template.ListHead.Macros.{IsAddressed}
use common_project_template.Callback.{
  Func, Callback, callback_type_nr, head_cb, run_func, node_online, node_offline, init_node_cbs,
  online, online_echoed, offline,
}
use common_project_template.Callback.Register.{addresses}
use common_project_template.Callback.Init.{IsLaidOut}
use common_project_template.Callback.Notify.{init-notify}

-- Two heads of 16 bytes from 1000 on, and three callbacks of 32 bytes from 2000 on.
abbrev node_cbs : ℕ → Ptr
node_cbs t = 1000 + 16 * t

abbrev table : List Callback
table = head_cb 2000 2032 2064

-- Static memory is zeroed.
abbrev memory : Heap
memory a = some (record { next = 0; prev = 0 })

memory-IsLaidOut : IsLaidOut node_cbs table memory
memory-IsLaidOut = record {
  heads = λ s t p q e. omega arith;
  distinct = (refl, (refl, (refl, tt)));
  apart = λ t p. ground arith;
  head_mapped = λ t p. (_, refl);
  mapped = λ a m. (_, refl);
}

sample-IsAddressed : (t : ℕ) → t < callback_type_nr → IsAddressed (node_cbs t) (addresses table)
sample-IsAddressed t p a m = ground arith

printed_online : run_func 0 Func.online_echo (record { id = 7 }) ≡ online_echoed 7 ∷ []
unfolding run_func
printed_online = refl

-- Node 7 goes online and offline, at the default message level.
init-notify_example :
    Returns
      (λ r.
        (node_online node_cbs table 0 (record { id = 7 }) [] r.1
          ≡ ok (online 7 ∷ online_echoed 7 ∷ [], r.1))
        × (node_offline node_cbs table 0 (record { id = 7 }) [] r.1 ≡ ok (offline 7 ∷ [], r.1)))
      (init_node_cbs node_cbs table memory)
unfolding run_func
init-notify_example =
    init-notify node_cbs table 0 (record { id = 7 }) [] memory memory-IsLaidOut sample-IsAddressed
