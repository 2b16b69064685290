-- ===== src/Extension/Plugins.antt =====
-- What plugins bring about: calls of natives (src/natives.cpp), and the ends of handles and of plugins
-- (src/extension.cpp).
use sm_rest.Extension.{RestExtension, on_plugin_unloaded}
use sm_rest.Extension.Handles.{CallContext, destroy_client, destroy_request}
use sm_rest.Native.Calls.{
  Owner, ConfigCall, configure_call, create_client, set_base_url, create_request, client_cancel,
  client_cancel_all,
}
use sm_rest.Native.Sending.{request_set, Listener, request_listen, request_send}
use sm_rest.Native.Setters.{Setter}
use sm_rest.Prelude.{ℕ, List, [], ◌∷◌, Bytes}
use sm_rest.Prelude.Int.{ℤ}

-- What a plugin can bring about while one of its functions runs, or at any other time: calls of
-- natives, the end of a handle, and its own end.
pub data PluginCall : Type 0 where
  configures : CallContext → Owner → ℕ → ConfigCall → PluginCall
  creates_client : CallContext → Bytes → PluginCall
  sets_base_url : CallContext → ℕ → Bytes → PluginCall
  creates_request : CallContext → ℕ → ℤ → Bytes → PluginCall
  sets : CallContext → ℕ → Setter → PluginCall
  listens_for : CallContext → ℕ → Listener → PluginCall
  sends : CallContext → ℕ → ℤ → PluginCall
  cancels : CallContext → ℕ → ℕ → PluginCall
  cancels_all : CallContext → ℕ → PluginCall
  closes_client closes_request unloads : ℕ → PluginCall

unfoldable pub plugin_call : RestExtension → PluginCall → RestExtension
plugin_call extension (configures context owner handle call) =
    (configure_call context extension owner handle call).0
plugin_call extension (creates_client context base_url) =
    (create_client context extension base_url).0
plugin_call extension (sets_base_url context handle base_url) =
    (set_base_url context extension handle base_url).0
plugin_call extension (creates_request context handle method path) =
    (create_request context extension handle method path).0
plugin_call extension (sets context handle setter) = (request_set context extension handle setter).0
plugin_call extension (listens_for context handle listener) =
    (request_listen context extension handle listener).0
plugin_call extension (sends context handle payload) =
    (request_send context extension handle payload).0
plugin_call extension (cancels context handle job_id) =
    (client_cancel context extension handle job_id).0
plugin_call extension (cancels_all context handle) = (client_cancel_all context extension handle).0
plugin_call extension (closes_client handle) = destroy_client extension handle
plugin_call extension (closes_request handle) = destroy_request extension handle
plugin_call extension (unloads identity) = on_plugin_unloaded identity extension

unfoldable pub plugin_calls : RestExtension → List PluginCall → RestExtension
unfolding plugin_call
plugin_calls extension [] = extension
plugin_calls extension (call ∷ calls) = plugin_calls (plugin_call extension call) calls
