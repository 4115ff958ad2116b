-- ===== src/Journal/Sifting.antt =====
-- The filters and the order of frontend/src/lib/decisionJournal.ts, and the stages of
-- frontend/src/lib/decisionWorkspace.ts.
use industrial_safety_intell.Prelude.{
  String, Bool, ◌||◌, some_injective, true, false, List, Option, none, some, ◌≢◌, ◌⊎◌, inl, inr,
  Bool-cases, ◌≡◌, refl, sym, ap, ◌∙◌, ◌↔◌, Memᴰ, arith,
}
use mathlib.Core.List.{Perm}
use mathlib.Core.Path.{subst}
use industrial_safety_intell.Prelude.Double.{Double, IsOrdered}
use industrial_safety_intell.Prelude.Eq.{◌==◌, string_eq}
use industrial_safety_intell.Prelude.Lists.{
  Memᴰ-filter, Memᴰ_of_filter, filter-All, All-Memᴰ, any, any-Memᴰ,
}
use industrial_safety_intell.Prelude.Sort.{sort-perm, IsSorted, sort-IsSorted}
use industrial_safety_intell.Prelude.Words.{Words, contains}
use industrial_safety_intell.Prelude.Text.{join}
use industrial_safety_intell.Api.Risk.{is_tier_eq, is_tier_refl, Zone, Tier}
use industrial_safety_intell.Format.{zone_label}
use industrial_safety_intell.Justification.{RiskJustification, parse_justification}
use industrial_safety_intell.Journal.{
  JournalEntry, JournalFilters, older, sort_journal_entries_by_timestamp_desc, tier_fits, zone_fits,
  search_fits, found_in, rules_text, entry_fits, filter_journal_entries, WorkspaceStageId,
  stage_text, workspace_stages, is_workspace_stage_id,
}

module _ {N : Type 0} ⦃d : Double N⦄ where
  -- The log has the newest decision first, and each decision as often as before.
  pub sort_journal_entries_by_timestamp_desc-IsSorted :
      (time_of : String → N) (entries : List (JournalEntry N))
      → IsOrdered d
      → IsSorted (older time_of) (sort_journal_entries_by_timestamp_desc time_of entries)
        × Perm (sort_journal_entries_by_timestamp_desc time_of entries) entries
  unfolding sort_journal_entries_by_timestamp_desc
  sort_journal_entries_by_timestamp_desc-IsSorted time_of entries o = (
    sort-IsSorted (older time_of) (λ x y h. o.lt_asym _ _ h) (λ x y z h k. o.not_lt_trans _ _ _ h k)
        entries,
    sort-perm (older time_of) entries,
  )

or_right : (a b : Bool) → b ≡ true → (a || b) ≡ true
or_right a b h = ground (arith, h)

or_rest : (a b : Bool) → (a || b) ≡ true → a ≡ false → b ≡ true
or_rest a b h k = ground (arith, h, k)

not_empty : (s : String) → s ≢ "" → (s == "") ≡ false
not_empty s n = elim (Bool-cases (s == "")) [
  | inl p ↦ absurd (n ((string_eq.same_iff s "").0 p))
  | inr p ↦ p
]

is_empty : (s : String) → (s == "") ≡ false → s ≢ ""
is_empty s p e = let q = (string_eq.same_iff s "").1 e in cc

tier_fits_iff :
    (o : Option Tier) (tier : Tier)
    → (tier_fits o tier ≡ true) ↔ ((t : Tier) → o ≡ some t → tier ≡ t)
tier_fits_iff none tier = (λ h t q. cc, λ h. refl)
tier_fits_iff (some u) tier =
    (λ h t q. is_tier_eq tier u h ∙ some_injective q, λ h. rw (h u refl) (is_tier_refl u))

zone_fits_iff :
    (o : Option String) (zone_id : String)
    → (zone_fits o zone_id ≡ true) ↔ ((z : String) → o ≡ some z → z ≢ "" → zone_id ≡ z)
zone_fits_iff none zone_id = (λ h z q. cc, λ h. refl)
zone_fits_iff (some u) zone_id = (
  λ h z q n.
      let same : u ≡ z = some_injective q in
      let rest = or_rest (u == "") (zone_id == u) h (not_empty u (λ e. n (sym same ∙ e))) in
      (string_eq.same_iff zone_id u).0 rest ∙ same,
  λ h. elim (Bool-cases (u == "")) [
    | inl p ↦ rw p refl
    | inr p ↦
        or_right (u == "") (zone_id == u)
          ((string_eq.same_iff zone_id u).1 (h u refl (is_empty u p)))
  ],
)

module _ {N : Type 0} (w : Words) where
  -- The rules that a decision was made by, as the text that is searched: empty where its
  -- justification is no row.
  abbrev pub HasRulesText : JournalEntry N → String → Type 0
  HasRulesText e text =
      ((parse_justification e.assessment.justification ≡ none) × (text ≡ ""))
      ⊎ ((j : RiskJustification N) × (parse_justification e.assessment.justification ≡ some j)
          × (text ≡ w.lower (join " " j.rules_fired)))

  -- The needle is in the name of the zone, or in the rules.
  abbrev pub Mentions : Option (List Zone) → String → JournalEntry N → Type 0
  Mentions zones needle e =
      (contains (w.lower (zone_label e.zone_id zones)) needle ≡ true)
      ⊎ ((text : String) × HasRulesText e text × (contains text needle ≡ true))

  -- What the filters that are set ask of an entry; an empty zone, and a search of spaces, ask nothing.
  abbrev pub Fits : Option (List Zone) → JournalFilters → JournalEntry N → Type 0
  Fits zones filters e =
      ((t : Tier) → filters.tier ≡ some t → e.assessment.tier ≡ t)
      × ((z : String) → filters.zone_id ≡ some z → z ≢ "" → e.zone_id ≡ z)
      × ((s : String)
          → filters.search ≡ some s
          → w.lower (w.trim s) ≢ ""
          → Mentions zones (w.lower (w.trim s)) e)

  HasRulesText-rules_text :
      (e : JournalEntry N) (o : Option (RiskJustification N))
      → parse_justification e.assessment.justification ≡ o
      → HasRulesText e (rules_text w o)
  HasRulesText-rules_text e none q = inl (q, refl)
  HasRulesText-rules_text e (some j) q = inr (j, q, refl)

  rules_text-HasRulesText :
      (e : JournalEntry N) (text : String)
      → HasRulesText e text
      → text ≡ rules_text w (parse_justification e.assessment.justification)
  rules_text-HasRulesText e text (inl (q, t)) = rw q t
  rules_text-HasRulesText e text (inr (j, q, t)) = rw q t

  found_in_iff :
      (zones : Option (List Zone)) (needle : String) (e : JournalEntry N)
      → (found_in w zones needle e ≡ true) ↔ Mentions zones needle e
  found_in_iff zones needle e =
      let o = parse_justification e.assessment.justification in
      let named = contains (w.lower (zone_label e.zone_id zones)) needle in
      let ruled = contains (rules_text w o) needle in
      (
        λ h. elim (Bool-cases named) [
          | inl p ↦ inl p
          | inr p ↦ inr (rules_text w o, HasRulesText-rules_text e o refl, or_rest named ruled h p)
        ],
        λ m. elim m [
          | inl p ↦ rw p refl
          | inr (text, has, c) ↦
              or_right named ruled
                (subst (λ t. contains t needle ≡ true) (rules_text-HasRulesText e text has) c)
        ],
      )

  search_fits_iff :
      (zones : Option (List Zone)) (o : Option String) (e : JournalEntry N)
      → (search_fits w zones o e ≡ true) ↔ (
          (s : String)
          → o ≡ some s
          → w.lower (w.trim s) ≢ ""
          → Mentions zones (w.lower (w.trim s)) e)
  search_fits_iff zones none e = (λ h s q. cc, λ h. refl)
  search_fits_iff zones (some u) e =
      let needle = w.lower (w.trim u) in
      let found = found_in_iff zones needle e in
      (
        λ h s q n.
            subst (λ t. w.lower (w.trim t) ≢ "" → Mentions zones (w.lower (w.trim t)) e)
              (some_injective q)
              (λ m.
                found.0 (or_rest (needle == "") (found_in w zones needle e) h (not_empty needle m)))
              n,
        λ h. elim (Bool-cases (needle == "")) [
          | inl p ↦ rw p refl
          | inr p ↦
              or_right (needle == "") (found_in w zones needle e)
                (found.1 (h u refl (is_empty needle p)))
        ],
      )

  Fits-iff :
      (zones : Option (List Zone)) (filters : JournalFilters) (e : JournalEntry N)
      → (entry_fits w zones filters e ≡ true) ↔ Fits zones filters e
  Fits-iff zones filters e =
      let t = tier_fits_iff filters.tier e.assessment.tier in
      let z = zone_fits_iff filters.zone_id e.zone_id in
      let s = search_fits_iff zones filters.search e in
      (
        λ h. (t.0 (ground (arith, h)), z.0 (ground (arith, h)), s.0 (ground (arith, h))),
        λ f. let a = t.1 f.0 in let b = z.1 f.1 in let c = s.1 f.2 in ground (arith, a, b, c),
      )

  -- The entries that are shown are those of the log that have the tier and the zone asked for, and
  -- mention the text searched for, where the filters ask for these.
  pub Memᴰ-filter_journal_entries :
      (entries : List (JournalEntry N)) (zones : Option (List Zone)) (filters : JournalFilters)
      (e : JournalEntry N)
      → Memᴰ e (filter_journal_entries w entries zones filters)
        ↔ (Memᴰ e entries × Fits zones filters e)
  unfolding filter_journal_entries
  Memᴰ-filter_journal_entries entries zones filters e = (
    λ m. (
      Memᴰ_of_filter (entry_fits w zones filters) entries m,
      (Fits-iff zones filters e).0
          (All-Memᴰ _ _ (filter-All (entry_fits w zones filters) entries) m),
    ),
    λ f. Memᴰ-filter (entry_fits w zones filters) entries f.0 ((Fits-iff zones filters e).1 f.1),
  )

stage_known : (id : WorkspaceStageId) → is_workspace_stage_id (some (stage_text id)) ≡ true
unfolding is_workspace_stage_id any
stage_known WorkspaceStageId.situation = refl
stage_known WorkspaceStageId.understand = refl
stage_known WorkspaceStageId.evidence = refl
stage_known WorkspaceStageId.historical = refl
stage_known WorkspaceStageId.forecast = refl
stage_known WorkspaceStageId.business_impact = refl
stage_known WorkspaceStageId.options = refl
stage_known WorkspaceStageId.recommended_action = refl
stage_known WorkspaceStageId.approval = refl
stage_known WorkspaceStageId.monitoring = refl
stage_known WorkspaceStageId.export = refl

stage_of :
    (value : String)
    → is_workspace_stage_id (some value) ≡ true
    → (id : WorkspaceStageId) × (stage_text id ≡ value)
unfolding is_workspace_stage_id
stage_of value h =
    let (s, m, e) = any-Memᴰ (λ s. stage_text s.id == value) workspace_stages h in
    (s.id, (string_eq.same_iff (stage_text s.id) value).0 e)

-- A text names a stage of the workspace exactly when it is the id of one.
pub is_workspace_stage_id-lem :
    (value : String)
    → (is_workspace_stage_id (some value) ≡ true)
      ↔ ((id : WorkspaceStageId) × (stage_text id ≡ value))
is_workspace_stage_id-lem value =
    (stage_of value, λ r. ap (λ t. is_workspace_stage_id (some t)) (sym r.1) ∙ stage_known r.0)
