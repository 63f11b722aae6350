-- ===== src/Edge/Flows/Invariant.antt =====
-- The two maps of the flow table agree, and its counters count.
use tailscale_railway_quic_b.Common.{
  ℕ, ◌+◌, ◌≤◌, ◌≡◌, refl, ap, sym, ◌∙◌, subst, Bool, true, false, ◌&&◌, text_eq_iff, List, [], ◌∷◌,
  ◌++◌, none, some, leb, if◌then◌else◌, find, update, delete, count, count-append,
  count-update_same, length, length-append, length-update, All, All-map, All-append, delete-All,
  update-All, arith, Bool-cases, inl, inr, find-none,
}
use tailscale_railway_quic_b.Registry.{Time}
use tailscale_railway_quic_b.Edge.Flows.{
  Flow, Limits, Table, empty_table, has_key, has_id, touch, add_flow, end_flow, remove_flow,
}
use tailscale_railway_quic_b.Edge.Flows.Rows.{
  Apart, Distinct, delete_none, delete_agree, count-delete, length-count, Distinct-delete,
  Distinct-append, Distinct-update,
}

-- What holds of the table between two calls.
pub record Inv (limits : Limits) (t : Table) : Type 0 where
  pub same : t.by_key ≡ t.by_id
  pub distinct : Distinct t.by_id
  pub issued : All (λ f. f.id ≤ t.flow_id) t.by_id
  pub dns : t.dns_flows ≡ count (λ f. f.shared_reply) t.by_id
  pub live : t.active_flows ≡ length t.by_id
  pub room : length t.by_id ≤ limits.max_flows
  pub dns_room : t.dns_flows ≤ limits.max_dns_flows

pub Inv-empty : (limits : Limits) → Inv limits empty_table
Inv-empty limits = record {
  same = refl;
  distinct = tt;
  issued = tt;
  dns = unfold count in refl;
  live = refl;
  room = omega arith;
  dns_room = omega arith;
}

pub touch-Inv :
    (limits : Limits) (t : Table) (now : Time) (id : ℕ) → Inv limits t → Inv limits (touch now id t)
unfolding touch
touch-Inv limits t now id inv = record {
  same = ap (update (has_id id) write) inv.same;
  distinct = Distinct-update (has_id id) write t.by_id (λ f. refl) (λ f. refl) inv.distinct;
  issued = update-All (λ f. f.id ≤ t.flow_id) (has_id id) write t.by_id (λ f h _. h) inv.issued;
  dns =
      inv.dns ∙ sym (count-update_same (λ f. f.shared_reply) (has_id id) write t.by_id (λ f. refl));
  live = inv.live ∙ sym (length-update (has_id id) write t.by_id);
  room = rw (length-update (has_id id) write t.by_id) inv.room;
  dns_room = inv.dns_room;
}
  where
    write : Flow → Flow
    write f = record f { last_used = now }

pub remove_flow-Inv :
    (limits : Limits) (t : Table) (f : Flow)
    → Inv limits t
    → find (has_id f.id) t.by_id ≡ some f
    → Inv limits (remove_flow f t)
unfolding remove_flow end_flow
remove_flow-Inv limits t f inv found =
    let one = count-delete (λ g. g.shared_reply) f t.by_id inv.distinct found in
    let all = count-delete (λ _. true) f t.by_id inv.distinct found in
    let len = length-count (delete (has_id f.id) t.by_id) in
    let len0 = length-count t.by_id in
    let dns = inv.dns in
    let live = inv.live in
    let room = inv.room in
    let dns_room = inv.dns_room in
    record {
      same = ap (delete (has_key f.key)) inv.same ∙ delete_agree f t.by_id inv.distinct found;
      distinct = Distinct-delete (has_id f.id) t.by_id inv.distinct;
      issued = delete-All (λ g. g.id ≤ t.flow_id) (has_id f.id) t.by_id inv.issued;
      dns = elim (Bool-cases f.shared_reply) [
        | inl e ↦ let one' = rw e at one in rw e (omega arith)
        | inr e ↦ let one' = rw e at one in rw e (omega arith)
      ];
      live = omega arith;
      room = omega arith;
      dns_room = elim (Bool-cases f.shared_reply) [
        | inl e ↦ rw e (omega arith)
        | inr e ↦ rw e dns_room
      ];
    }

fresh-Apart :
    (f : Flow) (n : ℕ) (xs : List Flow)
    → f.id ≡ n + 1
    → All (λ g. has_key f.key g ≡ false) xs
    → All (λ g. g.id ≤ n) xs
    → All (λ g. Apart g f) xs
fresh-Apart f n [] e _ _ = tt
fresh-Apart f n (g ∷ gs) e (k, ks) (i, is) =
    ((ground (arith, text_eq_iff g.key f.key), ground arith), fresh-Apart f n gs e ks is)

-- The limits are not reached where a flow is added.
pub add_flow-Inv :
    (limits : Limits) (t : Table) (f : Flow)
    → Inv limits t
    → f.id ≡ t.flow_id + 1
    → find (has_key f.key) t.by_key ≡ none
    → leb limits.max_flows (length t.by_id) ≡ false
    → (f.shared_reply && leb limits.max_dns_flows t.dns_flows) ≡ false
    → Inv limits (add_flow f t)
unfolding add_flow
add_flow-Inv limits t f inv number none_yet below dns_below =
    let ids : All (λ g. has_id f.id g ≡ false) t.by_id =
      All-map (λ g. g.id ≤ t.flow_id) (λ g. has_id f.id g ≡ false) (λ g h. ground arith) t.by_id
        inv.issued in
    let keys = find-none (has_key f.key) t.by_key none_yet in
    let keys' = subst (λ xs. All (λ g. has_key f.key g ≡ false) xs) inv.same keys in
    let by_id = delete_none (has_id f.id) t.by_id ids in
    let by_key = delete_none (has_key f.key) t.by_key keys in
    let one = length-append t.by_id (f ∷ []) in
    let shared = count-append (λ g. g.shared_reply) t.by_id (f ∷ []) in
    let dns = inv.dns in
    let live = inv.live in
    let room = inv.room in
    let dns_room = inv.dns_room in
    record {
      same = ap (λ xs. xs ++ f ∷ []) (by_key ∙ inv.same ∙ sym by_id);
      distinct = rw by_id (
          Distinct-append t.by_id f inv.distinct
            (fresh-Apart f t.flow_id t.by_id number keys' inv.issued));
      issued = rw by_id (
          All-append (λ g. g.id ≤ f.id) t.by_id (f ∷ [])
            (All-map (λ g. g.id ≤ t.flow_id) (λ g. g.id ≤ f.id) (λ g h. omega arith) t.by_id
              inv.issued)
            (omega arith, tt));
      dns = rw (by_id, shared) (unfold count in added f.shared_reply);
      live = rw (by_id, one) (omega arith);
      room = rw (by_id, one) (ground arith);
      dns_room = dns_added f.shared_reply dns_below;
    }
  where
    added :
        (b : Bool)
        → (if b then t.dns_flows + 1 else t.dns_flows)
          ≡ count (λ g. g.shared_reply) t.by_id + ((if b then 1 else 0) + 0)
    added true = let dns = inv.dns in omega arith
    added false = let dns = inv.dns in omega arith

    dns_added :
        (b : Bool)
        → (b && leb limits.max_dns_flows t.dns_flows) ≡ false
        → (if b then t.dns_flows + 1 else t.dns_flows) ≤ limits.max_dns_flows
    dns_added true h = ground arith
    dns_added false h = inv.dns_room
