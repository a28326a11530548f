-- ===== src/Discovery/Inventory.antt =====
-- aws/aws-inventory-provider.ts: the resources of an account, from the pages that the AWS clients
-- answer. The pages of one listing are a list, in the order in which their tokens lead to them.
pub mod Complete
use metricops_backend.Common.{
  ℕ, ◌+◌, ◌-◌, ◌≤◌, String, ◌≡◌, refl, sym, ap, ◌∙◌, Bool, true, false, not, ◌&&◌, ◌||◌, inl, inr,
  List, [], ◌∷◌, ◌++◌, map, Option, none, some, ltb, ◌==◌, nat_eq, string_eq, if◌then◌else◌, arith,
  length, take, filter, any, codes, slice_first, Bool-cases,
}
use metricops_backend.Common.Patterns.{
  is_letter, is_alphanumeric, is_headed_run, lower_all, same_codes,
}
use metricops_backend.Json.{Json, str, obj, Fields, end, field}
use metricops_backend.Domain.Errors.{plain_error}
use metricops_backend.Effects.{Result, ok, thrown, bind_result, bind_result-ok, ok-injective}
use metricops_backend.Alerts.Instances.{member, or_text}
use metricops_backend.Discovery.{DiscoveredResource}

abbrev pub Tags : Type 0
Tags = List (String × String)

-- a member of an object: an earlier one of the same key keeps its place and takes the new value
unfoldable pub put : String → String → Tags → Tags
put key value [] = (key, value) ∷ []
put key value (entry ∷ rest) =
    let others = put key value rest in
    if entry.0 == key then (key, value) ∷ rest else entry ∷ others

-- a tag of the AWS interface, whose key and value may be missing
pub record AwsTag : Type 0 where
  pub key : Option String
  pub value : Option String

-- one tag that `filter` lets through, and is set
abbrev put_tag : Option String → Option String → Tags → Tags
put_tag (some key) (some value) tags = if key == "" then tags else put key value tags
put_tag _ _ tags = tags

unfoldable pub aws_tags_from : List AwsTag → Tags → Tags
aws_tags_from [] tags = tags
aws_tags_from (tag ∷ rest) tags = aws_tags_from rest (put_tag tag.key tag.value tags)

-- `awsTags`
unfoldable pub aws_tags : List AwsTag → Tags
aws_tags tags = aws_tags_from tags []

abbrev is_tag_part : ℕ → Bool
is_tag_part c = is_alphanumeric c || c == 95 || c == 46 || c == 45

abbrev pub is_tag_key : String × String → Bool
is_tag_key entry = is_headed_run is_letter is_tag_part 63 (codes entry.0)

abbrev short_value : String × String → String × String
short_value entry = (entry.0, slice_first 120 entry.1)

-- `sanitizeTags`
unfoldable pub sanitize_tags : Tags → Tags
sanitize_tags tags = map short_value (take 32 (filter is_tag_key tags))

-- `allowed.includes(value.toLowerCase())`
unfoldable pub enum_value : String → List String → String → String
enum_value value [] fallback = fallback
enum_value value (word ∷ rest) fallback =
    let later = enum_value value rest fallback in
    if same_codes (lower_all (codes value)) (codes word) then word else later

abbrev tags_json : Tags → Fields
tags_json [] = end
tags_json (entry ∷ rest) = field entry.0 (str entry.1) (tags_json rest)

unfoldable pub resource : String → String → Tags → String → String → DiscoveredResource
resource provider_id resource_type source_tags region account_id = record {
  provider_id = provider_id;
  resource_type = resource_type;
  name = slice_first 200 (or_text (member "Name" source_tags) provider_id);
  environment = slice_first 100 (or_text (member "Environment" source_tags) "unknown");
  criticality =
      enum_value (member "MetricOpsCriticality" source_tags)
        ("low" ∷ "medium" ∷ "high" ∷ "critical" ∷ []) "medium";
  data_classification =
      enum_value (member "MetricOpsDataClassification" source_tags)
        ("public" ∷ "internal" ∷ "confidential" ∷ "restricted" ∷ []) "internal";
  tags = obj (
      tags_json
        (sanitize_tags (put "aws_account" account_id (put "aws_region" region source_tags))));
}

-- an item of a page: an instance or a volume with its tags, or a database or a load balancer with
-- its name
pub data Item : Type 0 where
  tagged : Option String → List AwsTag → Item
  named : Option String → Option String → Item

abbrev present : Option String → Option String
present none = none
present (some text) = if text == "" then none else some text

abbrev named_resource :
    Option String → Option String → String → String → String → Option DiscoveredResource
named_resource (some arn) (some name) resource_type region account_id =
    some (resource arn resource_type (("Name", name) ∷ []) region account_id)
named_resource _ _ resource_type region account_id = none

abbrev tagged_resource :
    Option String → List AwsTag → String → String → String → Option DiscoveredResource
tagged_resource (some id) tags resource_type region account_id =
    some (resource id resource_type (aws_tags tags) region account_id)
tagged_resource none tags resource_type region account_id = none

-- `continue` where an identifier or a name is missing
unfoldable pub resource_of_item : String → String → String → Item → Option DiscoveredResource
resource_of_item resource_type region account_id (tagged id tags) =
    tagged_resource (present id) tags resource_type region account_id
resource_of_item resource_type region account_id (named arn name) =
    named_resource (present arn) (present name) resource_type region account_id

abbrev pub limit_exceeded : {A : Type 0} → Result A
limit_exceeded = thrown (plain_error "AWS_DISCOVERY_LIMIT_EXCEEDED")

-- `result.push(…)`, then `enforceLimit`
abbrev pub push :
    ℕ → DiscoveredResource → List DiscoveredResource → Result (List DiscoveredResource)
push limit found result =
    if ltb limit (length (result ++ found ∷ [])) then limit_exceeded else ok (result ++ found ∷ [])

abbrev pub push_item :
    ℕ → Option DiscoveredResource → List DiscoveredResource → Result (List DiscoveredResource)
push_item limit none result = ok result
push_item limit (some found) result = push limit found result

module _ (resource_type region account_id : String) (limit : ℕ) where
  -- the items of one page
  unfoldable pub take_items : List Item → List DiscoveredResource → Result (List DiscoveredResource)
  take_items [] result = ok result
  take_items (item ∷ rest) result =
      bind_result (push_item limit (resource_of_item resource_type region account_id item) result)
        (take_items rest)

  -- the `do … while (token)` loop of the four listings
  unfoldable pub take_pages :
      List (Result (List Item)) → List DiscoveredResource → Result (List DiscoveredResource)
  take_pages [] result = ok result
  take_pages (page ∷ rest) result =
      bind_result page (λ items. bind_result (take_items items result) (take_pages rest))

-- what the clients answer to the listing of a type in a region, page by page
abbrev pub Listing : Type 0
Listing = String → String → List (Result (List Item))

module _ (listing : Listing) (account_id : String) (max_resources : ℕ) where
  unfoldable pub discover_type : String → String → ℕ → Result (List DiscoveredResource)
  discover_type resource_type region remaining =
      if ltb 0 remaining
      then take_pages resource_type region account_id remaining (listing resource_type region) []
      else limit_exceeded

  abbrev add_page :
      List DiscoveredResource → List DiscoveredResource → Result (List DiscoveredResource)
  add_page found page =
      if ltb max_resources (length (found ++ page)) then limit_exceeded else ok (found ++ page)

  -- the loop over the types of one region
  unfoldable pub discover_types :
      String → List String → List DiscoveredResource → Result (List DiscoveredResource)
  discover_types region [] found = ok found
  discover_types region (resource_type ∷ rest) found =
      bind_result (discover_type resource_type region (max_resources - length found))
        (λ page. bind_result (add_page found page) (discover_types region rest))

  -- `discover`, the role assumed
  unfoldable pub discover_regions :
      List String → List String → List DiscoveredResource → Result (List DiscoveredResource)
  discover_regions [] types found = ok found
  discover_regions (region ∷ rest) types found =
      bind_result (discover_types region types found) (discover_regions rest types)
