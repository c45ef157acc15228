-- ===== src/Layout/Streams/Channels.antt =====
-- The channels of an accepted stream name the regions that the lookup finds.
use concept.Layout.Streams.{
  StreamChannel, first_region, mapped_region, resolve_channels, analyze_stream, resolve_channel,
  channel_region, layout_region, StreamDecl,
}
use concept.Layout.Regions.{LayoutRegion, LayoutDecl, analyze_layout}
use concept.Base.{
  List, String, ◌≡◌, some, ℕ, ◌∷◌, ok, subst, get_elem?, any, str_eq, Option, ok_inj, true, false,
  none, >>=-eq-ok, eq_iff, some_inj, Option-cases, >>-eq-ok, inr, reject, suc, inl, ||-false,
  or_fail, reject-eq-ok, Bool-cases, or_fail-eq-ok, zero, ap, if◌then◌else◌, [], refl, sym, ◌∙◌,
  if_true, if_false,
}
use concept.Layout.Geometry.{Env}
use concept.Layout.Streams.Lookup.{first_region-get, analyze_layout-Fresh}

mapped_region-get :
    (rs : List LayoutRegion) (n : String) (r : LayoutRegion)
    → mapped_region rs n ≡ some r
    → (i : ℕ) × (get_elem? rs i ≡ some r) × (r.name ≡ n)
unfolding mapped_region
mapped_region-get [] n r h = cc
mapped_region-get (x ∷ rs) n r h = elim (Option-cases (mapped_region rs n)) [
  | inr p ↦
      let (y, e) = p in
      let (i, g, q) = mapped_region-get rs n y e in
      let s : y ≡ r = some_inj (rw e at h) in
      (suc i, subst (λ z. get_elem? rs i ≡ some z) s g, subst (λ z. z.name ≡ n) s q)
  | inl e ↦ elim (Bool-cases (str_eq x.name n)) [
    | inl b ↦
        let s : x ≡ r = some_inj (rw (e, b) at h) in
        (zero, ap some s, subst (λ z. z.name ≡ n) s ((eq_iff x.name n).0 b))
    | inr b ↦ absurd (nothing (rw (e, b) at h))
  ]
]
  where
    nothing : {z : LayoutRegion} → ◌≡◌ {A = Option LayoutRegion} none (some z) → ⊥
    nothing p = cc

-- The channel was resolved against the regions.
abbrev pub Resolved : List LayoutRegion → StreamChannel → Type 0
Resolved regions c =
    (r : LayoutRegion) × (mapped_region regions c.region_name ≡ some r)
    × (c.region_id ≡ r.id)
    × (c.typ ≡ some r.typ)

-- No channel has a name in `seen` or that of one before it, and all are resolved.
abbrev pub AllResolved : List LayoutRegion → List String → List StreamChannel → Type 0
AllResolved regions seen [] = Unit
AllResolved regions seen (c ∷ cs) =
    (any (λ n. str_eq n c.name) seen ≡ false)
    × Resolved regions c
    × AllResolved regions (c.name ∷ seen) cs

resolve_channel-Resolved :
    (regions : List LayoutRegion) (seen : List String) (channel c : StreamChannel)
    → resolve_channel regions seen channel ≡ ok c
    → (any (λ n. str_eq n c.name) seen ≡ false) × Resolved regions c × (channel.name ≡ c.name)
unfolding resolve_channel
resolve_channel-Resolved regions seen channel c h =
    let (n, h₁) = >>-eq-ok (reject (any (λ n. str_eq n channel.name) seen) "CV4583") _ h in
    let (r, hr, h₂) =
      >>=-eq-ok (or_fail (mapped_region regions channel.region_name) "CV4582") _ h₁ in
    subst
      (λ x.
        (any (λ n. str_eq n x.name) seen ≡ false) × Resolved regions x × (channel.name ≡ x.name))
      (ok_inj h₂) (reject-eq-ok _ _ n, (r, or_fail-eq-ok _ _ hr, refl, refl), refl)

resolve_channels-AllResolved :
    (regions : List LayoutRegion) (seen : List String) (channels cs : List StreamChannel)
    → resolve_channels regions seen channels ≡ ok cs
    → AllResolved regions seen cs
unfolding resolve_channels
resolve_channels-AllResolved regions seen [] cs h = subst (AllResolved regions seen) (ok_inj h) tt
resolve_channels-AllResolved regions seen (channel ∷ rest) cs h =
    let (c, hc, h₁) = >>=-eq-ok (resolve_channel regions seen channel) _ h in
    let (ds, hd, h₂) = >>=-eq-ok (resolve_channels regions (channel.name ∷ seen) rest) _ h₁ in
    let (n, r, e) = resolve_channel-Resolved regions seen channel c hc in
    let there = resolve_channels-AllResolved regions (channel.name ∷ seen) rest ds hd in
    subst (AllResolved regions seen) (ok_inj h₂)
      (n, r, subst (λ x. AllResolved regions (x ∷ seen) ds) e there)

channel-unseen :
    (regions : List LayoutRegion) (seen : List String) (cs : List StreamChannel) (i : ℕ)
    (c : StreamChannel)
    → AllResolved regions seen cs
    → get_elem? cs i ≡ some c
    → (any (λ n. str_eq n c.name) seen ≡ false) × Resolved regions c
channel-unseen regions seen [] i c a e = cc
channel-unseen regions seen (d ∷ cs) zero c (n, r, a) e =
    subst (λ x. (any (λ n. str_eq n x.name) seen ≡ false) × Resolved regions x) (some_inj e) (n, r)
channel-unseen regions seen (d ∷ cs) (suc i) c (n, r, a) e =
    let (m, q) = channel-unseen regions (d.name ∷ seen) cs i c a e in ((||-false _ _ m).1, q)

channel_region-get :
    (regions : List LayoutRegion) (seen : List String) (cs : List StreamChannel) (i : ℕ)
    (c : StreamChannel)
    → AllResolved regions seen cs
    → get_elem? cs i ≡ some c
    → channel_region cs c.name ≡ c.region_name
unfolding channel_region
channel_region-get regions seen [] i c a e = cc
channel_region-get regions seen (d ∷ cs) zero c a e =
    subst
      (λ x.
        (if str_eq d.name x.name then d.region_name else channel_region cs x.name) ≡ x.region_name)
      (some_inj e)
      (if_true (str_eq d.name d.name) d.region_name (channel_region cs d.name) (same d.name))
  where
    same : (n : String) → str_eq n n ≡ true
    same n = (eq_iff n n).1 refl
channel_region-get regions seen (d ∷ cs) (suc i) c (n, r, a) e =
    let (m, _) = channel-unseen regions (d.name ∷ seen) cs i c a e in
    if_false (str_eq d.name c.name) d.region_name (channel_region cs c.name)
      ((||-false (str_eq d.name c.name) _ m).0)
    ∙ channel_region-get regions (d.name ∷ seen) cs i c a e

-- In an accepted stream over an accepted layout, where both are registered under the names used,
-- the lookup of a channel finds a region, and the channel has the region's identity and type.
pub analyze_stream-lookup :
    (env : Env) (layouts : String → Option LayoutDecl) (streams : String → Option StreamDecl)
    (source layout : LayoutDecl) (decl out : StreamDecl) (i : ℕ) (c : StreamChannel)
    → analyze_layout env source ≡ ok layout
    → layouts decl.layout_name ≡ some layout
    → analyze_stream layouts decl ≡ ok out
    → streams out.name ≡ some out
    → get_elem? out.channels i ≡ some c
    → (r : LayoutRegion) × (layout_region streams layouts out.name c.name ≡ some r)
      × (c.region_id ≡ r.id)
      × (c.typ ≡ some r.typ)
unfolding analyze_stream layout_region
analyze_stream-lookup env layouts streams source layout decl out i c hl e h s g =
    let (l, hr, h₁) = >>=-eq-ok (or_fail (layouts decl.layout_name) "CV4581") _ h in
    let (cs, hc, h₂) = >>=-eq-ok (resolve_channels l.regions [] decl.channels) _ h₁ in
    let q : l ≡ layout = some_inj (sym (or_fail-eq-ok _ _ hr) ∙ e) in
    let a : AllResolved layout.regions [] cs =
      subst (λ x. AllResolved x.regions [] cs) q
        (resolve_channels-AllResolved l.regions [] decl.channels cs hc) in
    let a' : AllResolved layout.regions [] out.channels =
      subst (λ x. AllResolved layout.regions [] x.channels) (ok_inj h₂) a in
    let (_, (r, m, ids, ty)) = channel-unseen layout.regions [] out.channels i c a' g in
    let (k, at, named) = mapped_region-get layout.regions c.region_name r m in
    let found : first_region layout.regions c.region_name ≡ some r =
      subst (λ x. first_region layout.regions x ≡ some r) named
        (first_region-get [] layout.regions k r (analyze_layout-Fresh env source layout hl) at) in
    let held : layouts out.layout_name ≡ some layout =
      subst (λ x. layouts x.layout_name ≡ some layout) (ok_inj h₂) e in
    (r, rw (s, held, channel_region-get layout.regions [] out.channels i c a' g) found, ids, ty)
