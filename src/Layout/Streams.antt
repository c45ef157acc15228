-- ===== src/Layout/Streams.antt =====
-- Streams over a layout and the lookup of a region: `evt1AnalyzeStreams` for one declaration and
-- `evt1LayoutRegion`, lines 256 to 312 of internal/concept/layout.go.
pub mod Lookup
pub mod Channels
use concept.Layout.Regions.{LayoutRegion, LayoutDecl}
use concept.Base.{
  String, Option, List, none, some, Result, ◌∷◌, ok, if◌then◌else◌, str_eq, [], ◌>>◌, ◌>>=◌,
  or_fail, reject, any,
}
use concept.Layout.Geometry.{Ty}

pub record StreamChannel : Type 0 where
  pub name : String
  pub region_name : String
  pub region_id : String
  pub typ : Option Ty

pub record StreamDecl : Type 0 where
  pub name : String
  pub layout_name : String
  pub channels : List StreamChannel

-- The map from names to regions, in which a later region replaces an earlier one.
unfoldable pub mapped_region : List LayoutRegion → String → Option LayoutRegion
mapped_region [] n = none
mapped_region (r ∷ rs) n = elim (mapped_region rs n) [
  | some x ↦ some x
  | none ↦ if str_eq r.name n then some r else none
]

-- One round of the loop over the channels, after those named in `seen`.
unfoldable pub resolve_channel :
    List LayoutRegion → List String → StreamChannel → Result StreamChannel
unfolding mapped_region
resolve_channel regions seen channel = do
  reject (any (λ n. str_eq n channel.name) seen) "CV4583"
  region ← or_fail (mapped_region regions channel.region_name) "CV4582"
  ok (record channel { region_id = region.id; typ = some region.typ })

unfoldable pub resolve_channels :
    List LayoutRegion → List String → List StreamChannel → Result (List StreamChannel)
resolve_channels regions seen [] = ok []
resolve_channels regions seen (channel ∷ rest) = do
  c ← resolve_channel regions seen channel
  cs ← resolve_channels regions (channel.name ∷ seen) rest
  ok (c ∷ cs)

unfoldable pub analyze_stream : (String → Option LayoutDecl) → StreamDecl → Result StreamDecl
analyze_stream layouts decl = do
  layout ← or_fail (layouts decl.layout_name) "CV4581"
  channels ← resolve_channels layout.regions [] decl.channels
  ok (record decl { channels = channels })

-- The first region of this name.
unfoldable pub first_region : List LayoutRegion → String → Option LayoutRegion
first_region [] field = none
first_region (r ∷ rs) field = if str_eq r.name field then some r else first_region rs field

-- The region name of the first channel of this name, or the name itself.
unfoldable pub channel_region : List StreamChannel → String → String
channel_region [] field = field
channel_region (c ∷ cs) field =
    if str_eq c.name field then c.region_name else channel_region cs field

abbrev pub region_of : Option LayoutDecl → String → Option LayoutRegion
region_of none field = none
region_of (some layout) field = first_region layout.regions field

abbrev pub viewed_region :
    (String → Option LayoutDecl) → Option StreamDecl → String → String → Option LayoutRegion
viewed_region layouts none type_name field = region_of (layouts type_name) field
viewed_region layouts (some stream) type_name field =
    region_of (layouts stream.layout_name) (channel_region stream.channels field)

unfoldable pub layout_region :
    (String → Option StreamDecl)
    → (String → Option LayoutDecl)
    → String
    → String
    → Option LayoutRegion
layout_region streams layouts type_name field =
    viewed_region layouts (streams type_name) type_name field
