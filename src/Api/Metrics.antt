-- ===== src/Api/Metrics.antt =====
-- internal/api/api.go: the text of /metrics. A snapshot of the metrics is a map in the order of its walk.
use keypool_service.Base.{
  ◌≡◌, refl, Bool, true, false, ◌&&◌, ◌||◌, Option, none, some, List, [], ◌∷◌, ◌++◌, ltb, ◌==◌,
  if◌then◌else◌,
}
use keypool_service.Base.Int.{ℤ, pos, ◌+ℤ◌}
use keypool_service.Base.Text.{Str, codes, eq_str, itoa}
use keypool_service.Redis.Client.{StrMap, find, put}

abbrev counter_or_zero : Option ℤ → ℤ
counter_or_zero none = pos 0
counter_or_zero (some n) = n

-- `merged[k] += v` over a snapshot.
unfoldable pub merge_metrics : StrMap ℤ → StrMap ℤ → StrMap ℤ
unfolding find put ◌+ℤ◌
merge_metrics m [] = m
merge_metrics m ((k, v) ∷ more) = merge_metrics (put k (counter_or_zero (find k m) +ℤ v) m) more

-- The order of strings is that of their bytes, which for UTF-8 is that of the code points.
unfoldable pub leb_str : Str → Str → Bool
leb_str [] t = true
leb_str (c ∷ s) [] = false
leb_str (c ∷ s) (d ∷ t) = ltb c d || ((c == d) && leb_str s t)

unfoldable pub insert_metric : Str × ℤ → StrMap ℤ → StrMap ℤ
unfolding leb_str
insert_metric m [] = m ∷ []
insert_metric m (n ∷ ns) = if leb_str m.0 n.0 then m ∷ n ∷ ns else n ∷ insert_metric m ns

-- sort.Strings on the keys.
unfoldable pub sort_metrics : StrMap ℤ → StrMap ℤ
unfolding insert_metric
sort_metrics [] = []
sort_metrics (m ∷ ms) = insert_metric m (sort_metrics ms)

-- The name before the first brace.
unfoldable pub base_name : Str → Str
base_name [] = []
base_name (c ∷ s) = if c == b'{' then [] else c ∷ base_name s

unfoldable pub seen_type : Str → List Str → Bool
seen_type b [] = false
seen_type b (x ∷ xs) = eq_str x b || seen_type b xs

-- The line of the type, once for each base name.
abbrev type_line : Str → List Str → Str
type_line base seen =
    if seen_type base seen then [] else codes "# TYPE " ++ base ++ codes " counter\n"

unfoldable pub metric_lines : List Str → StrMap ℤ → Str
unfolding seen_type base_name itoa
metric_lines seen [] = []
metric_lines seen ((k, v) ∷ more) =
    let name = codes "keypool_" ++ k in
    let base = base_name name in
    type_line base seen
    ++ name
    ++ codes " "
    ++ itoa v
    ++ codes "\n"
    ++ metric_lines (base ∷ seen) more

-- The whole text, for the snapshots of the selector and of the manager.
unfoldable pub metrics_page : StrMap ℤ → StrMap ℤ → Str → Str
unfolding merge_metrics sort_metrics metric_lines
metrics_page a b uptime =
    metric_lines [] (sort_metrics (merge_metrics (merge_metrics [] a) b))
    ++ codes "# TYPE keypool_process_uptime_seconds gauge\nkeypool_process_uptime_seconds "
    ++ uptime
    ++ codes "\n"

metrics_page_runs :
    metrics_page
      ((codes "b{x}", pos 2) ∷ (codes "a", pos 1) ∷ [])
      ((codes "b{w}", pos 3) ∷ [])
      (codes "1.500")
    ≡ codes
        "# TYPE keypool_a counter\nkeypool_a 1\n# TYPE keypool_b counter\nkeypool_b{w} 3\nkeypool_b{x} 2\n# TYPE keypool_process_uptime_seconds gauge\nkeypool_process_uptime_seconds 1.500\n"
unfolding metrics_page
metrics_page_runs = refl
