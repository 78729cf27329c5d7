-- ===== src/Redis/Script.antt =====
-- internal/redisx/select_key.lua, and SelectKey of internal/redisx/select_lua.go, which runs it.
use keypool_service.Base.{
  ltb, ℕ, ◌+◌, ◌-◌, ◌%◌, Bool, ◌&&◌, List, [], ◌∷◌, if◌then◌else◌, length, get_or,
}
use keypool_service.Base.Int.{ℤ, pos, negsuc, ◌-ℤ◌}
use keypool_service.Base.Maps.{IntMap, insert, lookup_or}
use keypool_service.Base.Text.{Str, eq_str}
use keypool_service.Platform.{Platform, Float64}
use keypool_service.Errors.{other_error, Outcome, ok, err}
use keypool_service.Selector.Candidates.{mode_usage, mode_random, mode_polling, mode_peek}
use keypool_service.Redis.Client.{Redis, Reply, called, add_usage}

-- What one run meets: math.random(n), from 1 to n, the k-th math.random(), and whether a redis.call of the
-- choice fails, as HINCRBYFLOAT on a value that is no number.
pub record LuaDraws : Type 0 where
  pub random_index : ℕ → ℕ
  pub random_unit : ℕ → Float64
  pub breaks : Bool

pub record ScriptArgs : Type 0 where
  pub mode : Str
  pub cid : ℤ
  pub candidates : List ℕ
  pub est : Float64
  pub interval : Float64
  pub factor : Float64
  pub now : ℕ
  pub jitter : Float64

-- Every counter times the factor.
unfoldable pub scaled : Platform → Float64 → IntMap Float64 → IntMap Float64
scaled p factor [] = []
scaled p factor ((k, v) ∷ m) = (k, p.fmul v factor) ∷ scaled p factor m

-- The lazy decay, in usage mode with a positive interval that has passed.
unfoldable pub decayed : Platform → ScriptArgs → Redis → Redis
unfolding scaled ◌-ℤ◌
decayed p a r =
    let last = lookup_or a.cid r.last_decay 0 in
    if eq_str a.mode mode_usage
      && (p.flt 0 a.interval && p.flt a.interval (p.float_of (pos a.now -ℤ pos last)))
    then record r {
      usage = insert a.cid (scaled p a.factor (lookup_or a.cid r.usage [])) r.usage;
      last_decay = insert a.cid a.now r.last_decay;
    }
    else r

-- `candidates[(cur % n) + 1]`, counted from 1 in Lua.
unfoldable pub at_cursor : ℕ → List ℕ → ℕ
at_cursor cur cands = get_or cands (cur % length cands) 0

-- INCR of the cursor, and the candidate there.
unfoldable pub poll : ℤ → List ℕ → Redis → ℕ × Redis
unfolding at_cursor
poll cid cands r =
    let cur = lookup_or cid r.cursors 0 + 1 in
    (at_cursor cur cands, record r { cursors = insert cid cur r.cursors })

-- The effective count of the candidate of round `k`.
unfoldable pub effective : Platform → LuaDraws → Float64 → IntMap Float64 → ℕ → ℕ → Float64
effective p d jitter counters k c =
    p.fmul (lookup_or (pos c) counters 0)
      (p.fadd (p.float_of (pos 1)) (p.fmul (d.random_unit k) jitter))

-- The loop with `best` and `bestEff`, at round `k`.
unfoldable pub least : Platform → LuaDraws → Float64 → IntMap Float64 → ℕ → ℕ → Float64 → List ℕ → ℕ
unfolding effective
least p d jitter counters k best best_eff [] = best
least p d jitter counters k best best_eff (c ∷ cs) =
    let eff = effective p d jitter counters k c in
    if p.flt eff best_eff
    then least p d jitter counters (k + 1) c eff cs
    else least p d jitter counters (k + 1) best best_eff cs

unfoldable pub least_used : Platform → LuaDraws → ScriptArgs → Redis → ℕ → List ℕ → ℕ
unfolding least
least_used p d a r c cs =
    let counters = lookup_or a.cid r.usage [] in
    least p d a.jitter counters 1 c (effective p d a.jitter counters 0 c) cs

-- The choice by mode, for a first candidate and the others.
unfoldable pub choose : Platform → LuaDraws → ScriptArgs → Redis → ℕ → List ℕ → ℕ × Redis
unfolding poll least_used add_usage
choose p d a r c cs =
    if eq_str a.mode mode_polling
    then poll a.cid (c ∷ cs) r
    else if eq_str a.mode mode_peek
    then (at_cursor (lookup_or a.cid r.cursors 0) (c ∷ cs), r)
    else if eq_str a.mode mode_random
    then (get_or (c ∷ cs) (d.random_index (length (c ∷ cs)) - 1) 0, r)
    else if eq_str a.mode mode_usage
    then (least_used p d a r c cs, add_usage p a.cid (pos (least_used p d a r c cs)) a.est r)
    else poll a.cid (c ∷ cs) r

-- The whole script: -1 for no candidates, after the decay.
unfoldable pub run_on : Platform → LuaDraws → ScriptArgs → Redis → List ℕ → ℤ × Redis
unfolding choose
run_on p d a r [] = (negsuc 0, r)
run_on p d a r (c ∷ cs) = let (i, r') = choose p d a r c cs in (pos i, r')

unfoldable pub select_script : Platform → LuaDraws → ScriptArgs → Redis → ℤ × Redis
unfolding run_on decayed
select_script p d a r = run_on p d a (decayed p a r) a.candidates

-- The reply of the script: a call that fails ends it with an error, and what the decay wrote stays.
unfoldable pub script_reply : Platform → LuaDraws → ScriptArgs → Redis → Outcome ℤ × Redis
unfolding select_script decayed
script_reply p d a r =
    if d.breaks && ltb 0 (length a.candidates)
    then (err (other_error ∷ []), decayed p a r)
    else let (i, r') = select_script p d a r in (ok i, r')

-- SelectKey.
unfoldable pub select_key : Platform → LuaDraws → Reply → ScriptArgs → Redis → Outcome ℤ × Redis
unfolding script_reply
select_key p d reply a r = called reply (script_reply p d a r) r
