-- ===== src/Discovery/Tests.antt =====
-- A discovery of one resource, where another one was known.
use metricops_backend.Common.{
  ◌≡◌, ◌≤◌, refl, String, List, [], ◌∷◌, ◌++◌, none, some, filter, any, All, true, length, arith,
  slice_first,
}
use metricops_backend.Common.Patterns.{is_headed_run, is_run, same_codes, lower_all}
use metricops_backend.Alerts.Instances.{member}
use metricops_backend.Discovery.Inventory.{
  Listing, tagged, discover_regions, discover_types, discover_type, take_pages, take_items,
  resource_of_item, resource, aws_tags, aws_tags_from, put, sanitize_tags, enum_value,
  limit_exceeded,
}
use metricops_backend.Discovery.Inventory.Complete.{
  in_items, in_pages, in_types, in_regions, discover_regions-all,
}
use metricops_backend.Common.Dates.{to_iso_string}
use metricops_backend.Json.{Json, obj, end}
use metricops_backend.Database.Tables.{ResourceRow}
use metricops_backend.Effects.{Result, ok, thrown}
use metricops_backend.Database.Tables.{empty_db, ConnectionRow, aws_assume_role, healthy}
use metricops_backend.Database.Transaction.{Pool}
use metricops_backend.Database.Sample.{pool_with}
use metricops_backend.Discovery.{
  DiscoveredResource, AwsConfiguration, inserted, upsert_all, mark_missing,
}
use metricops_backend.Discovery.Marked.{
  IsCurrent, is_foreign, shows, discovery-IsCurrent, discovery-shows,
}

abbrev found : DiscoveredResource
found = record {
  provider_id = "i-2";
  resource_type = "aws_ec2";
  name = "web";
  environment = "production";
  criticality = "high";
  data_classification = "internal";
  tags = obj end;
}

-- known from an earlier discovery
abbrev known : ResourceRow
known =
    record (inserted "acme" "aws:c1" "j1" "worker" 1600000000000000
      (record found { provider_id = "i-1" }) "a") { version = 3 }

abbrev after : List ResourceRow
after =
    (mark_missing "acme" "aws:c1" "j2" "worker" 1700000000000000 (
      upsert_all "acme" "aws:c1" "j2" "worker" 1700000000000000 to_iso_string (found ∷ []) 0
        (known ∷ []))).0

discovery-IsCurrent_example :
    All (IsCurrent "acme" "aws:c1" "j2" "worker" 1700000000000000) after
    × (filter (is_foreign "acme" "aws:c1" "j2" "worker" 1700000000000000) after
        ≡ filter (is_foreign "acme" "aws:c1" "j2" "worker" 1700000000000000) (known ∷ []))
discovery-IsCurrent_example =
    discovery-IsCurrent "acme" "aws:c1" "j2" "worker" 1700000000000000 to_iso_string (found ∷ []) 0
      (known ∷ [])

discovery-shows_example :
    All
      (λ resource. any (shows "acme" "aws:c1" "j2" "worker" 1700000000000000 resource) after ≡ true)
      (found ∷ [])
discovery-shows_example =
    discovery-shows "acme" "aws:c1" "j2" "worker" 1700000000000000 to_iso_string (found ∷ []) 0
      (known ∷ [])

abbrev account : ConnectionRow
account = record {
  id = "c1";
  customer_id = "acme";
  name = "cloud";
  kind = aws_assume_role;
  configuration = obj end;
  secret_ref = none;
  status = healthy;
  last_validated_at = none;
  created_by = "ann";
  created_at = 1690000000000;
  updated_at = 1690000000000;
}

abbrev start : Pool
start = pool_with (record empty_db { connections = account ∷ []; resources = known ∷ [] })

abbrev parsed : Json → Result AwsConfiguration
parsed j = ok (record { regions = obj end; resource_types = obj end; whole = j })

abbrev one_found : AwsConfiguration → String → Result (List DiscoveredResource)
one_found configuration customer_id = ok (found ∷ [])

-- one page with an instance, a page with one that has no identifier, and no other pages
abbrev two_pages : Listing
two_pages resource_type region =
    ok (tagged (some "i-2") ((record { key = some "Name"; value = some "web" }) ∷ []) ∷ [])
    ∷ ok (tagged none [] ∷ [])
    ∷ []

abbrev inventory_rows : Result (List DiscoveredResource) → List DiscoveredResource
inventory_rows (ok rows) = rows
inventory_rows (thrown t) = []

abbrev taken : List DiscoveredResource
taken =
    inventory_rows
      (discover_regions two_pages "123456789012" 5 ("eu-west-1" ∷ []) ("aws_ec2" ∷ []) [])

inventory : Unit {0}
unfolding discover_regions discover_types discover_type take_pages take_items resource_of_item
    resource aws_tags aws_tags_from put sanitize_tags enum_value member is_headed_run is_run
    same_codes lower_all slice_first in_regions in_types in_pages in_items
inventory = tt

taken_ok :
    discover_regions two_pages "123456789012" 5 ("eu-west-1" ∷ []) ("aws_ec2" ∷ []) [] ≡ ok taken
unfolding inventory
taken_ok = refl

one_taken : length taken ≡ 1
unfolding inventory
one_taken = refl

-- the limit is reached with a type left
early :
    discover_regions two_pages "123456789012" 1 ("eu-west-1" ∷ []) ("aws_ec2" ∷ "aws_rds" ∷ []) []
    ≡ limit_exceeded
unfolding inventory
early = refl

discover_regions-all_example :
    ([] ++ in_regions two_pages "123456789012" 5 ("eu-west-1" ∷ []) ("aws_ec2" ∷ []) ≡ taken)
    × (length taken ≤ 5)
discover_regions-all_example =
    discover_regions-all two_pages "123456789012" 5 ("eu-west-1" ∷ []) ("aws_ec2" ∷ []) [] taken
      (omega arith) taken_ok
