-- ===== src/Dedup/Plan/Samples.antt =====
-- One asset with a copy inside the root and one outside.
use packrat.Prelude.{ℕ, ◌≡◌, refl, sym, ap, ◌∙◌, ◌≢◌, inl, inr, false, none, [], ◌∷◌, arith, Has}
use packrat.Scan.Catalogue.{InstanceRow, Catalogue}
use packrat.Dedup.Matcher.{photo}
use packrat.Prelude.Groups.{append_at, group_by}
use packrat.Dedup.Apply.{same_number}
use packrat.Dedup.Plan.{
  exact_external, Planned, is_active, in_root, exact_rows, exact_action, inside, outside, first_by,
  all_of, plan_split, plan_asset, plan_assets, plan_exact,
}
use packrat.Dedup.Plan.Survivors.{OneId, plan_exact-survivor}

abbrev inner_row : InstanceRow
inner_row = record {
  id = 1;
  asset_id = 7;
  root_id = 3;
  path = 97 ∷ [];
  size = 5;
  mtime = none;
  last_seen_at = 0;
}

abbrev outer_row : InstanceRow
outer_row = record inner_row { id = 2; root_id = 4; path = 98 ∷ [] }

abbrev two_copies : Catalogue
two_copies = record {
  assets =
      record {
        id = 7;
        content_hash = 70;
        media_type = photo;
        is_trashed = false;
        undecodable = false;
        phash = none;
        vphash = [];
      }
      ∷ [];
  instances = inner_row ∷ outer_row ∷ [];
  needs_dedup = [];
}

abbrev same_case : ℕ → ℕ
same_case c = c

abbrev inner_target : Planned
inner_target = record {
  asset_id = 7;
  instance_id = 1;
  path = 97 ∷ [];
  survivor_instance_id = 2;
  survivor_path = 98 ∷ [];
  reason = exact_external;
  is_external = false;
}

different_ids : OneId two_copies.instances
different_ids a b (inl e) (inl f) same = e ∙ sym f
different_ids a b (inl e) (inr (inl f)) same =
    let ids : 1 ≡ 2 =
      sym (ap (λ (x : InstanceRow). x.id) e) ∙ (same ∙ ap (λ (x : InstanceRow). x.id) f) in
    absurd (omega (arith, ids))
different_ids a b (inr (inl e)) (inl f) same =
    let ids : 2 ≡ 1 =
      sym (ap (λ (x : InstanceRow). x.id) e) ∙ (same ∙ ap (λ (x : InstanceRow). x.id) f) in
    absurd (omega (arith, ids))
different_ids a b (inr (inl e)) (inr (inl f)) same = e ∙ sym f
different_ids a b m (inr (inr n)) same = absurd n
different_ids a b (inr (inr m)) n same = absurd m

inner_target_planned : Has inner_target (plan_exact same_case 3 false two_copies)
unfolding plan_exact plan_assets plan_asset plan_split all_of exact_action first_by inside outside
    exact_rows is_active in_root group_by append_at same_number
inner_target_planned = inl refl

plan_exact-survivor_example :
    (s : InstanceRow) × Has s two_copies.instances
    × (inner_target.survivor_instance_id ≡ s.id)
    × (inner_target.asset_id ≡ s.asset_id)
    × ((r : Planned) → Has r (plan_exact same_case 3 false two_copies) → r.instance_id ≢ s.id)
plan_exact-survivor_example =
    plan_exact-survivor same_case 3 false two_copies different_ids inner_target inner_target_planned
