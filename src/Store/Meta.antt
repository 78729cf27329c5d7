-- ===== src/Store/Meta.antt =====
-- The read-only projection of a channel: ChannelMeta and Meta of internal/store/types.go.
use keypool_service.Base.{
  ℕ, ◌<◌, ◌≡◌, inl, inr, Bool, true, false, not, ◌&&◌, Option, none, some, List, [], ◌∷◌, arith,
  if◌then◌else◌, Bool-cases, length, keep, All,
}
use keypool_service.Base.Int.{ℤ, pos, eq_ℤ}
use keypool_service.Base.Text.{Str, codes, is_empty, split, trim_space}
use keypool_service.Platform.{
  Platform, Json, null, bool, number, text, array, object, no_items, item, no_members, member_of,
  JsonMap,
}
use mathlib.Core.Path.{subst}
use keypool_service.Store.Types.{Channel}

-- A map field is an option whose `none` is nil, which the JSON tags leave out.
pub record ChannelMeta : Type 0 where
  pub id : ℤ
  pub name : Str
  pub kind : ℤ
  pub status : ℤ
  pub group : Str
  pub tag : Str
  pub remark : Str
  pub models : List Str
  pub base_url : Str
  pub priority : ℤ
  pub weight : ℕ
  pub auto_ban : Bool
  pub multi_key : Bool
  pub multi_key_mode : Str
  pub openai_organization : Str
  pub test_model : Str
  pub model_mapping : Option JsonMap
  pub status_code_mapping : Option JsonMap
  pub header_override : Option JsonMap
  pub param_override : Option JsonMap
  pub setting : Option JsonMap
  pub settings : Option JsonMap
  pub other : Option JsonMap

-- A map with no entry becomes nil.
abbrev or_nil : JsonMap → Option JsonMap
or_nil [] = none
or_nil (e ∷ m) = some (e ∷ m)

unfoldable pub parse_object_map : Platform → Str → Option JsonMap
parse_object_map p s =
    if is_empty (trim_space s)
    then none
    else elim (p.json_object s) [ none ↦ none | some m ↦ or_nil m ]

unfoldable pub is_zero_value : Platform → Json → Bool
is_zero_value p null = true
is_zero_value p (bool b) = not b
is_zero_value p (number f) = p.feq f 0
is_zero_value p (text s) = is_empty s
is_zero_value p (array no_items) = true
is_zero_value p (array (item j js)) = false
is_zero_value p (object no_members) = true
is_zero_value p (object (member_of k j ms)) = false

unfoldable pub prune_zero_entries : Platform → Option JsonMap → Option JsonMap
unfolding is_zero_value
prune_zero_entries p none = none
prune_zero_entries p (some m) = or_nil (keep (λ e. not (is_zero_value p e.1)) m)

-- Reads through a nil pointer as the zero value.
abbrev pub deref : Option Str → Str
deref none = []
deref (some s) = s

-- The loop over the parts of the models column.
unfoldable pub model_names : List Str → List Str
model_names [] = []
model_names (m ∷ ms) =
    let t = trim_space m in let rest = model_names ms in if is_empty t then rest else t ∷ rest

-- `AutoBan == nil || *AutoBan == 1`.
abbrev pub auto_ban_on : Option ℤ → Bool
auto_ban_on none = true
auto_ban_on (some n) = eq_ℤ n (pos 1)

unfoldable pub meta : Platform → Channel → ChannelMeta
unfolding parse_object_map prune_zero_entries model_names
meta p c =
    let mode = c.channel_info.multi_key_mode in
    record {
      id = c.id;
      name = c.name;
      kind = c.kind;
      status = c.status;
      group = c.group;
      tag = deref c.tag;
      remark = deref c.remark;
      models = model_names (split c.models b',');
      base_url = c.base_url;
      priority = elim c.priority [ none ↦ pos 0 | some n ↦ n ];
      weight = elim c.weight [ none ↦ 0 | some n ↦ n ];
      auto_ban = auto_ban_on c.auto_ban;
      multi_key = c.channel_info.is_multi_key;
      multi_key_mode =
          if c.channel_info.is_multi_key && is_empty mode then codes "polling" else mode;
      openai_organization = deref c.openai_organization;
      test_model = deref c.test_model;
      model_mapping = parse_object_map p (deref c.model_mapping);
      status_code_mapping = parse_object_map p (deref c.status_code_mapping);
      header_override = parse_object_map p (deref c.header_override);
      param_override = parse_object_map p (deref c.param_override);
      setting = prune_zero_entries p (parse_object_map p (deref c.setting));
      settings = prune_zero_entries p (parse_object_map p c.other_settings);
      other = prune_zero_entries p (parse_object_map p c.other);
    }

-- What a pruned map holds: at least one entry, and none whose value is zero.
pub record IsPruned (p : Platform) (m : JsonMap) : Type 0 where
  pub some_entry : 0 < length m
  pub no_zero : All (λ e. is_zero_value p e.1 ≡ false) m

All-kept :
    (p : Platform) (m : JsonMap)
    → All (λ e. is_zero_value p e.1 ≡ false) (keep (λ e. not (is_zero_value p e.1)) m)
All-kept p [] = tt
All-kept p (e ∷ m) = elim (Bool-cases (is_zero_value p e.1)) [
  | inl z ↦ rw z (All-kept p m)
  | inr z ↦ rw z (z, All-kept p m)
]

or_nil_lem : (m n : JsonMap) → or_nil m ≡ some n → (m ≡ n) × (0 < length m)
or_nil_lem [] n h = absurd (cc)
or_nil_lem (e ∷ m) n h = (ground arith, omega arith)

-- A map that the projection shows after pruning is never empty, and none of its values is null,
-- false, 0, the empty text, or an empty array or object.
pub prune_zero_entries-IsPruned :
    (p : Platform) (o : Option JsonMap) (m : JsonMap)
    → prune_zero_entries p o ≡ some m
    → IsPruned p m
unfolding prune_zero_entries
prune_zero_entries-IsPruned p none m h = absurd (cc)
prune_zero_entries-IsPruned p (some n) m h =
    let (e, l) = or_nil_lem (keep (λ e. not (is_zero_value p e.1)) n) m h in
    record {
      some_entry = rw (← e) l;
      no_zero = subst (All (λ e. is_zero_value p e.1 ≡ false)) e (All-kept p n);
    }
