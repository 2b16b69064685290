-- ===== src/Native/Settings.antt =====
-- Each client and each request has settings of its own.
use sm_rest.Prelude.{
  ℕ, ◌≡◌, refl, ap, ◌∙◌, Bool, true, false, ◌&&◌, List, some, arith, if◌then◌else◌, ◌==◌,
  Option-cases, inl, inr, Bool-cases,
}
use sm_rest.Prelude.Int.{ℤ}
use sm_rest.Request.{ClientConfig}
use sm_rest.Extension.{RestExtension, assign}
use sm_rest.Extension.Handles.{CallContext, read_object}
use sm_rest.Extension.Table.{find-assign}
use sm_rest.Native.Config.{
  ConfigField, config_set, IsCell, is_same, read_back, config_get-config_set,
}
use sm_rest.Native.Calls.{
  Answer, returns, Owner, read_config, config_get_call, with_client, with_request, ConfigCall,
  change_config, configure_call, reconfigured,
}

abbrev pub is_same_owner : Owner → Owner → Bool
is_same_owner Owner.client Owner.client = true
is_same_owner Owner.request Owner.request = true
is_same_owner _ _ = false

read_object-assign {ℓ} :
    {A : Type ℓ} (context : CallContext) (objects : List (ℕ × A)) (handle other : ℕ) (old new : A)
    → read_object context objects handle ≡ some old
    → read_object context (assign objects handle new) other
      ≡ (if handle == other then some new else read_object context objects other)
unfolding read_object
read_object-assign context objects handle other old new found =
    ground (arith, find-assign objects handle other new)

read_config-configure_call :
    (context : CallContext) (extension : RestExtension) (owner other_owner : Owner)
    (handle other : ℕ) (field : ConfigField) (value : ℤ) (config : ClientConfig)
    → read_config context extension owner handle ≡ some config
    → read_config context
        (configure_call context extension owner handle (ConfigCall.set_field field value)).0
        other_owner
        other
      ≡ (if is_same_owner owner other_owner && handle == other
          then some (config_set config field value)
          else read_config context extension other_owner other)
unfolding read_config configure_call with_client with_request change_config
read_config-configure_call context extension Owner.client Owner.client handle other field value
      config found =
    elim (Option-cases (read_object context extension.clients handle)) [
      | inl missing ↦ absurd (ground (arith, found, missing))
      | inr (object, there) ↦
          rw (with_client, there)
            (ground (
              arith,
              found,
              there,
              read_object-assign context extension.clients handle other object
                  (record object { config = config_set object.config field value }) there,
            ))
    ]
read_config-configure_call context extension Owner.client Owner.request handle other field value
      config found =
    ground arith
read_config-configure_call context extension Owner.request Owner.client handle other field value
      config found =
    ground arith
read_config-configure_call context extension Owner.request Owner.request handle other field value
      config found =
    elim (Option-cases (read_object context extension.requests handle)) [
      | inl missing ↦ absurd (ground (arith, found, missing))
      | inr (object, there) ↦
          rw (with_request, there)
            (ground (
              arith,
              found,
              there,
              read_object-assign context extension.requests handle other object
                  (reconfigured object (config_set object.spec.config field value)) there,
            ))
    ]

same_object :
    (context : CallContext) (extension : RestExtension) (owner other_owner : Owner)
    (handle other : ℕ)
    → (is_same_owner owner other_owner && handle == other) ≡ true
    → read_config context extension other_owner other ≡ read_config context extension owner handle
same_object context extension Owner.client Owner.client handle other h =
    let same : other ≡ handle = ground (arith, h) in
    ap (read_config context extension Owner.client) same
same_object context extension Owner.client Owner.request handle other h = absurd (ground (arith, h))
same_object context extension Owner.request Owner.client handle other h = absurd (ground (arith, h))
same_object context extension Owner.request Owner.request handle other h =
    let same : other ≡ handle = ground (arith, h) in
    ap (read_config context extension Owner.request) same

returns_either :
    (b : Bool) (x y : ℤ) (other : Answer)
    → returns y ≡ other
    → returns (if b then x else y) ≡ (if b then returns x else other)
returns_either true x y other h = refl
returns_either false x y other h = h

-- Where a handle names a client or a request, setting a field to a cell makes that field of that
-- object read as the cell, or as one or zero where it is a switch. Every other field, and every
-- field of every other client and request, reads as before: a request has a copy of its client's
-- settings.
pub config_get_call-configure_call :
    (context : CallContext) (extension : RestExtension) (owner other_owner : Owner)
    (handle other_handle : ℕ) (field other : ConfigField) (value : ℤ) (config : ClientConfig)
    → read_config context extension owner handle ≡ some config
    → IsCell value
    → config_get_call context
        (configure_call context extension owner handle (ConfigCall.set_field field value)).0
        other_owner
        other_handle
        other
      ≡ (if (is_same_owner owner other_owner && handle == other_handle) && is_same field other
          then returns (read_back field value)
          else config_get_call context extension other_owner other_handle other)
unfolding config_get_call
config_get_call-configure_call context extension owner other_owner handle other_handle field other
      value config found cell =
    elim (Bool-cases (is_same_owner owner other_owner && handle == other_handle)) [
      | inl same ↦
          rw
            (
              config_get_call,
              read_config-configure_call context extension owner other_owner handle other_handle
                  field value config found,
              same,
            )
            (ap returns (config_get-config_set config field other value cell)
              ∙ returns_either (is_same field other) _ _ _ (
                  rw
                    (
                      config_get_call,
                      same_object context extension owner other_owner handle other_handle same,
                      found,
                    )
                    refl))
      | inr differs ↦
          rw
            (
              config_get_call,
              read_config-configure_call context extension owner other_owner handle other_handle
                  field value config found,
              differs,
            )
            refl
    ]
