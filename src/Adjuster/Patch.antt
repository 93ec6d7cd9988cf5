-- ===== src/Adjuster/Patch.antt =====
-- The strategic merge patches of adjuster.go, as the texts that are sent to Kubernetes.
use cassandra_operator.Base.{String, ◌<>◌, Option, none, some, [], ◌∷◌}
use cassandra_operator.Base.Int.{ℤ}
use cassandra_operator.Base.Text.{concat, show_ℤ}
use cassandra_operator.Platform.{Platform}
use cassandra_operator.Api.{Probe, Pod, Rack}

-- statefulSetPatchTemplate, cut at the two probes.
patch_head : {P : Platform} → Rack → Pod P → String
patch_head {P} rack pod = concat (
    "{\n  \"spec\": {\n    \"replicas\": "
    ∷ (show_ℤ rack.replicas)
    ∷ ",\n    \"template\": {\n      \"spec\": {\n\t\t\"initContainers\": [{\n"
    ∷ "           \"name\": \"cassandra-bootstrapper\",\t\n           \"image\": \""
    ∷ pod.bootstrapper_image
    ∷ "\"\t\n\t\t}],\n        \"containers\": [{\n           \"name\": \"cassandra\",\n"
    ∷ "           \"livenessProbe\": {\n             \"failureThreshold\": "
    ∷ [])

patch_probe : Probe → String
patch_probe probe = concat (
    (show_ℤ probe.failure_threshold)
    ∷ ",\n             \"initialDelaySeconds\": "
    ∷ (show_ℤ probe.initial_delay_seconds)
    ∷ ",\n             \"periodSeconds\": "
    ∷ (show_ℤ probe.period_seconds)
    ∷ ",\n             \"successThreshold\": "
    ∷ (show_ℤ probe.success_threshold)
    ∷ ",\n             \"timeoutSeconds\": "
    ∷ (show_ℤ probe.timeout_seconds)
    ∷ [])

patch_between : String
patch_between =
    "\n           },\n           \"readinessProbe\": {\n" <> "             \"failureThreshold\": "

patch_tail : {P : Platform} → Pod P → String
patch_tail {P} pod = concat (
    "\n           },\n           \"resources\": {\n             \"requests\": {\n"
    ∷ "               \"cpu\": \""
    ∷ (P.quantity_string pod.cpu)
    ∷ "\",\n               \"memory\": \""
    ∷ (P.quantity_string pod.memory)
    ∷ "\"\n             },\n\t\t\t \"limits\": {\n               \"memory\": \""
    ∷ (P.quantity_string pod.memory)
    ∷ "\"\n             }\n\t       }\n        }]\n      }\n    }\n  }\n}"
    ∷ [])

-- Executing the template stops at a nil probe. The error is dropped, and what was written before it
-- is the patch.
patch_from_readiness : {P : Platform} → Pod P → Option Probe → String
patch_from_readiness pod none = ""
patch_from_readiness pod (some probe) = patch_probe probe <> patch_tail pod

patch_from_liveness : {P : Platform} → Pod P → Option Probe → String
patch_from_liveness pod none = ""
patch_from_liveness pod (some probe) =
    patch_probe probe <> (patch_between <> patch_from_readiness pod pod.readiness_probe)

unfoldable pub patch_for_rack : {P : Platform} → Rack → Pod P → String
unfolding patch_head patch_probe patch_between patch_tail patch_from_liveness patch_from_readiness
    concat show_ℤ
patch_for_rack rack pod = patch_head rack pod <> patch_from_liveness pod pod.liveness_probe

unfoldable pub scale_down_patch_for_rack : ℤ → String
unfolding concat show_ℤ
scale_down_patch_for_rack nodes_to_scale_down =
    concat ("{\"spec\": {\"replicas\": " ∷ show_ℤ nodes_to_scale_down ∷ "}}" ∷ [])

unfoldable pub update_annotation_patch : String → String → String
unfolding concat
update_annotation_patch name value = concat (
    "{\n  \"spec\": {\n    \"template\": {\n      \"metadata\": {\n\t\t\"annotations\": {\n\t\t\t\""
    ∷ name ∷ "\": \"" ∷ value ∷ "\"\n\t\t}\n      }\n    }\n  }\n}" ∷ [])
