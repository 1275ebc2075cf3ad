-- ===== src/Host/Refs/Tests.antt =====
-- A table with one subject, counted twice.
use native.Mathlib.Decide.{ℕ_discrete}
use mathlib.Core.List.{List-discrete}
use sassrv.Base.{ℕ, ◌+◌, ◌-◌, ◌≡◌, sym, ◌∙◌, List, [], ◌∷◌, none, some, arith}
use sassrv.Base.Wire.{HashTab, function_tab}
use sassrv.Host.Refs.{stored, add_ref, rem_ref}
use sassrv.Host.Refs.Counting.{
  IsCount, IsClean, set_rsz-IsClean, stored-some, add_ref-IsCount, rem_ref-IsCount,
}

abbrev tab : HashTab (List ℕ) ℕ
tab = function_tab (List-discrete ℕ_discrete)

abbrev topic : List ℕ
topic = 1 ∷ []

abbrev twice : HashTab.Tab tab
twice = tab.set_rsz tab.empty topic 2

twice-IsClean : IsClean tab twice
twice-IsClean =
    set_rsz-IsClean tab tab.empty topic 2 (omega arith)
      (λ sub e. let z : none ≡ some 0 = sym (tab.find-empty sub) ∙ e in ground (arith, z))

twice-stored : stored tab twice topic ≡ 2
twice-stored = stored-some tab twice topic 2 (tab.find-set_self tab.empty topic 2)

add_ref-IsCount_example :
    IsCount tab twice topic (stored tab twice topic + 1) (add_ref tab twice topic)
    × IsClean tab (add_ref tab twice topic).0
add_ref-IsCount_example =
    add_ref-IsCount tab twice topic (omega (arith, twice-stored)) twice-IsClean

rem_ref-IsCount_example :
    IsCount tab twice topic (stored tab twice topic - 2) (rem_ref tab twice topic 2)
    × IsClean tab (rem_ref tab twice topic 2).0
rem_ref-IsCount_example = rem_ref-IsCount tab twice topic 2 twice-IsClean
