-- ===== src/Serving/Registry.antt =====
-- The routes of `ModelRegistry` and `resolve_route` of backend/app/inference/model_registry.py.
use intrusion_detect.Common.{
  ℕ, ℕ, Bool, true, false, ◌&&◌, Option, none, some, List, [], ◌∷◌, ◌++◌, Text, codes,
  option_text_eq, is_empty, if◌then◌else◌,
}
use intrusion_detect.Errors.{Exception, value_error, other_exception, Result, ok, err}
use intrusion_detect.Schema.{
  SchemaVersion, rt_iot2022_v1, nfstream_iot_v1, unsupported, schema_version_eq, Features,
  FeatureValue,
}
use intrusion_detect.Store.{Label}

pub record Detector : Type 0 where
  pub version : Text
  pub calibrated : Bool
  pub predict_label : Features → Result (Label × ℕ)

pub record Classifier : Type 0 where
  pub version : Text
  pub calibrated : Bool
  pub predict_label : Features → Result (Text × ℕ)

pub record ModelRoute : Type 0 where
  pub detector : Detector
  pub classifier : Classifier

pub record RouteEntry : Type 0 where
  pub schema_version : SchemaVersion
  pub extractor_fingerprint : Option Text
  pub route : ModelRoute

pub record ModelRegistry : Type 0 where
  pub routes : List RouteEntry
  pub native_route_error : Option Text

-- Python's own formatting of values: `repr` of a text, `str` of a value and of a UUID.
pub record Formatting : Type 0 where
  pub repr : Text → Text
  pub str_value : FeatureValue → Text
  pub str_uuid : ℕ → Text

abbrev pub version_text : SchemaVersion → Text
version_text rt_iot2022_v1 = codes "rt-iot2022-v1"
version_text nfstream_iot_v1 = codes "nfstream-iot-v1"
version_text (unsupported name) = name

abbrev repr_option : Formatting → Option Text → Text
repr_option f none = codes "None"
repr_option f (some t) = f.repr t

-- `self.routes[...]`
unfoldable pub route_of : SchemaVersion → Option Text → List RouteEntry → Option ModelRoute
route_of version fingerprint [] = none
route_of version fingerprint (entry ∷ entries) =
    let rest = route_of version fingerprint entries in
    if schema_version_eq entry.schema_version version
      && option_text_eq entry.extractor_fingerprint fingerprint
    then some entry.route
    else rest

abbrev pub model_route_error : Text → Exception
model_route_error message = record {
  exception_class = value_error;
  type_name = codes "ModelRouteError";
  message = message;
}

abbrev key_error : Exception
key_error = record {
  exception_class = other_exception;
  type_name = codes "KeyError";
  message = codes "('rt-iot2022-v1', None)";
}

abbrev pub extractor_message : Text
extractor_message =
    codes "no approved rt-iot2022-v1 model route accepts extractor-authored observations"

abbrev bundle_reason : Option Text → Text
bundle_reason none = []
bundle_reason (some error) =
    if is_empty error then [] else codes "; configured native bundle is invalid: " ++ error

unfoldable pub no_route_message : Formatting → ModelRegistry → SchemaVersion → Option Text → Text
no_route_message f registry version fingerprint =
    codes "no approved model route for schema="
    ++ (f.repr (version_text version)
        ++ (codes ", extractor_fingerprint="
            ++ (repr_option f fingerprint ++ bundle_reason registry.native_route_error)))

found_or : Exception → Option ModelRoute → Result ModelRoute
found_or e none = err e
found_or e (some route) = ok route

abbrev is_rt : SchemaVersion → Bool
is_rt rt_iot2022_v1 = true
is_rt _ = false

unfoldable pub resolve_rt : ModelRegistry → Option Text → Result ModelRoute
unfolding route_of found_or
resolve_rt registry (some fingerprint) = err (model_route_error extractor_message)
resolve_rt registry none = found_or key_error (route_of rt_iot2022_v1 none registry.routes)

unfoldable pub resolve_route :
    Formatting → ModelRegistry → SchemaVersion → Option Text → Result ModelRoute
unfolding resolve_rt route_of found_or no_route_message
resolve_route f registry version fingerprint =
    if is_rt version
    then resolve_rt registry fingerprint
    else found_or (model_route_error (no_route_message f registry version fingerprint))
        (route_of version fingerprint registry.routes)
