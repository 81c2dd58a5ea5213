-- ===== src/Std/Sort.antt =====
-- sort.Strings, as insertion into the order of bytes.
use cloud_tasks_emulator.Base.{List, [], ◌∷◌, if◌then◌else◌}
use cloud_tasks_emulator.Base.Bytes.{Bytes, bytes_leb}

unfoldable pub insert_sorted : Bytes → List Bytes → List Bytes
insert_sorted x [] = x ∷ []
insert_sorted x (y ∷ ys) = if bytes_leb x y then x ∷ y ∷ ys else y ∷ insert_sorted x ys

unfoldable pub sort_strings : List Bytes → List Bytes
unfolding insert_sorted
sort_strings [] = []
sort_strings (x ∷ xs) = insert_sorted x (sort_strings xs)
