-- ===== src/Tests/Pages.antt =====
-- core/engine.go's paginate on a list of three names.
use cloud_tasks_emulator.Base.{◌≡◌, refl, [], ◌∷◌, List, some, arith}
use cloud_tasks_emulator.Base.Int.{pos}
use cloud_tasks_emulator.Base.Bytes.{Bytes, codes}
use cloud_tasks_emulator.Std.Base64.{encode}
use cloud_tasks_emulator.Std.Decimal.{format_nat}
use cloud_tasks_emulator.Core.Status.{ok, ◌>>=◌}
use cloud_tasks_emulator.Core.Page.{paginate}
use cloud_tasks_emulator.Core.Page.Walk.{walk, walk_all}

abbrev three_names : List Bytes
three_names = codes "a" ∷ codes "b" ∷ codes "c" ∷ []

first_page : paginate three_names (pos 2) [] 1000 ≡ ok (codes "a" ∷ codes "b" ∷ [], codes "Mg")
unfolding paginate ◌>>=◌ encode format_nat
first_page = refl

walk_all_example : walk 4 three_names (pos 2) [] 1000 ≡ some three_names
walk_all_example = walk_all three_names (pos 2) 1000 (omega arith) (omega arith)
