-- ===== src/Examples/Sorting.antt =====
-- An engine for the queries of backend/app that returns rows as they are stored, and sorts by
-- insertion.
use mathlib.Core.List.Perm
use chore_app.Engine.{Engine}
use chore_app.Engine.Sorting.{
  sort_by, sort_by-perm, up, down, up_sorted, down_sorted, newer, newer_sorted,
}

abbrev pub sorting : Engine
sorting = record {
  scan = λ Row rows. rows;
  scan-perm = λ Row rows. Perm.refl rows;
  ascending = λ Row key rows. sort_by (up Row key) rows;
  ascending-perm = λ Row key rows. sort_by-perm (up Row key) rows;
  ascending-IsAscending = up_sorted;
  descending = λ Row key rows. sort_by (down Row key) rows;
  descending-perm = λ Row key rows. sort_by-perm (down Row key) rows;
  descending-IsDescending = down_sorted;
  newest = λ Row key tie rows. sort_by (newer Row key tie) rows;
  newest-perm = λ Row key tie rows. sort_by-perm (newer Row key tie) rows;
  newest-IsNewestFirst = newer_sorted;
}
