-- ===== src/Host/Refs.antt =====
-- The subjects that the daemon's own inbox counts: `add_ref` and `rem_ref` of src/rv_host.cpp on
-- `sub_map`, a table of raikv keyed by subjects.
pub mod Counting
mod Tests
use sassrv.Base.{ℕ, ◌-◌, List, Option, none, some, leb, if◌then◌else◌, add32}
use sassrv.Base.Wire.{HashTab}

module _ (H : HashTab (List ℕ) ℕ) where
  -- `upsert`, then `refcnt = 0` where the subject is new.
  abbrev pub stored : H.Tab → List ℕ → ℕ
  stored sub_map sub = elim (H.find sub_map sub) [ none ↦ 0 | some refcnt ↦ refcnt ]

  unfoldable pub add_ref : H.Tab → List ℕ → H.Tab × ℕ
  add_ref sub_map sub =
      let refcnt = add32 (stored sub_map sub) 1 in (H.set_rsz sub_map sub refcnt, refcnt)

  abbrev pub rem_found : H.Tab → List ℕ → ℕ → Option ℕ → H.Tab × ℕ
  rem_found sub_map sub cnt none = (sub_map, 0)
  rem_found sub_map sub cnt (some refcnt) =
      if leb refcnt cnt
      then (H.remove sub_map sub, 0)
      else (H.set_rsz sub_map sub (refcnt - cnt), refcnt - cnt)

  unfoldable pub rem_ref : H.Tab → List ℕ → ℕ → H.Tab × ℕ
  rem_ref sub_map sub cnt = rem_found sub_map sub cnt (H.find sub_map sub)
