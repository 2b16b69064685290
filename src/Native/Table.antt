-- ===== src/Native/Table.antt =====
-- src/natives.cpp: the table of the natives, by the names under which plugins call them.
use sm_rest.Prelude.{List, [], ◌∷◌, Bytes, bytes}
use sm_rest.Native.Config.{
  ConfigField, connect_timeout, timeout, absolute_timeout, max_retries, max_redirects,
  max_send_speed, max_recv_speed, max_body_size, chunk_size, progress_interval, follow_redirects,
  verify_certificate,
}
use sm_rest.Native.Calls.{Owner}

-- The functions of the file, the templates with their arguments.
pub data Native : Type 0 where
  gets puts : Owner → ConfigField → Native
  set_header remove_header set_basic_auth set_bearer_token set_user_agent : Owner → Native
  client_create client_set_base_url client_request : Native
  client_cancel client_cancel_all request_set_query : Native
  request_set_body request_set_body_file request_add_form_field : Native
  request_add_form_file request_set_output_file request_on_headers : Native
  request_on_data request_on_progress request_send : Native
  response_get_status response_get_http_status response_get_content_length : Native
  response_get_body_length response_get_elapsed_ms response_get_header_count : Native
  response_get_error response_get_url response_get_header : Native
  response_get_header_at response_get_body response_read_body : Native

unfoldable pub natives : List (Bytes × Native)
natives =
    (bytes "RESTClient.RESTClient", client_create)
    ∷ (bytes "RESTClient.SetBaseUrl", client_set_base_url)
    ∷ (bytes "RESTClient.SetHeader", set_header Owner.client)
    ∷ (bytes "RESTClient.RemoveHeader", remove_header Owner.client)
    ∷ (bytes "RESTClient.SetBasicAuth", set_basic_auth Owner.client)
    ∷ (bytes "RESTClient.SetBearerToken", set_bearer_token Owner.client)
    ∷ (bytes "RESTClient.SetUserAgent", set_user_agent Owner.client)
    ∷ (bytes "RESTClient.ConnectTimeout.get", gets Owner.client connect_timeout)
    ∷ (bytes "RESTClient.ConnectTimeout.set", puts Owner.client connect_timeout)
    ∷ (bytes "RESTClient.Timeout.get", gets Owner.client timeout)
    ∷ (bytes "RESTClient.Timeout.set", puts Owner.client timeout)
    ∷ (bytes "RESTClient.AbsoluteTimeout.get", gets Owner.client absolute_timeout)
    ∷ (bytes "RESTClient.AbsoluteTimeout.set", puts Owner.client absolute_timeout)
    ∷ (bytes "RESTClient.MaxRetries.get", gets Owner.client max_retries)
    ∷ (bytes "RESTClient.MaxRetries.set", puts Owner.client max_retries)
    ∷ (bytes "RESTClient.MaxRedirects.get", gets Owner.client max_redirects)
    ∷ (bytes "RESTClient.MaxRedirects.set", puts Owner.client max_redirects)
    ∷ (bytes "RESTClient.MaxSendSpeed.get", gets Owner.client max_send_speed)
    ∷ (bytes "RESTClient.MaxSendSpeed.set", puts Owner.client max_send_speed)
    ∷ (bytes "RESTClient.MaxRecvSpeed.get", gets Owner.client max_recv_speed)
    ∷ (bytes "RESTClient.MaxRecvSpeed.set", puts Owner.client max_recv_speed)
    ∷ (bytes "RESTClient.MaxBodySize.get", gets Owner.client max_body_size)
    ∷ (bytes "RESTClient.MaxBodySize.set", puts Owner.client max_body_size)
    ∷ (bytes "RESTClient.ChunkSize.get", gets Owner.client chunk_size)
    ∷ (bytes "RESTClient.ChunkSize.set", puts Owner.client chunk_size)
    ∷ (bytes "RESTClient.ProgressInterval.get", gets Owner.client progress_interval)
    ∷ (bytes "RESTClient.ProgressInterval.set", puts Owner.client progress_interval)
    ∷ (bytes "RESTClient.FollowRedirects.get", gets Owner.client follow_redirects)
    ∷ (bytes "RESTClient.FollowRedirects.set", puts Owner.client follow_redirects)
    ∷ (bytes "RESTClient.VerifyCertificate.get", gets Owner.client verify_certificate)
    ∷ (bytes "RESTClient.VerifyCertificate.set", puts Owner.client verify_certificate)
    ∷ (bytes "RESTClient.Request", client_request)
    ∷ (bytes "RESTClient.Cancel", client_cancel)
    ∷ (bytes "RESTClient.CancelAll", client_cancel_all)
    ∷ (bytes "RESTRequest.SetHeader", set_header Owner.request)
    ∷ (bytes "RESTRequest.RemoveHeader", remove_header Owner.request)
    ∷ (bytes "RESTRequest.SetBasicAuth", set_basic_auth Owner.request)
    ∷ (bytes "RESTRequest.SetBearerToken", set_bearer_token Owner.request)
    ∷ (bytes "RESTRequest.SetUserAgent", set_user_agent Owner.request)
    ∷ (bytes "RESTRequest.ConnectTimeout.get", gets Owner.request connect_timeout)
    ∷ (bytes "RESTRequest.ConnectTimeout.set", puts Owner.request connect_timeout)
    ∷ (bytes "RESTRequest.Timeout.get", gets Owner.request timeout)
    ∷ (bytes "RESTRequest.Timeout.set", puts Owner.request timeout)
    ∷ (bytes "RESTRequest.AbsoluteTimeout.get", gets Owner.request absolute_timeout)
    ∷ (bytes "RESTRequest.AbsoluteTimeout.set", puts Owner.request absolute_timeout)
    ∷ (bytes "RESTRequest.MaxRetries.get", gets Owner.request max_retries)
    ∷ (bytes "RESTRequest.MaxRetries.set", puts Owner.request max_retries)
    ∷ (bytes "RESTRequest.MaxRedirects.get", gets Owner.request max_redirects)
    ∷ (bytes "RESTRequest.MaxRedirects.set", puts Owner.request max_redirects)
    ∷ (bytes "RESTRequest.MaxSendSpeed.get", gets Owner.request max_send_speed)
    ∷ (bytes "RESTRequest.MaxSendSpeed.set", puts Owner.request max_send_speed)
    ∷ (bytes "RESTRequest.MaxRecvSpeed.get", gets Owner.request max_recv_speed)
    ∷ (bytes "RESTRequest.MaxRecvSpeed.set", puts Owner.request max_recv_speed)
    ∷ (bytes "RESTRequest.MaxBodySize.get", gets Owner.request max_body_size)
    ∷ (bytes "RESTRequest.MaxBodySize.set", puts Owner.request max_body_size)
    ∷ (bytes "RESTRequest.ChunkSize.get", gets Owner.request chunk_size)
    ∷ (bytes "RESTRequest.ChunkSize.set", puts Owner.request chunk_size)
    ∷ (bytes "RESTRequest.ProgressInterval.get", gets Owner.request progress_interval)
    ∷ (bytes "RESTRequest.ProgressInterval.set", puts Owner.request progress_interval)
    ∷ (bytes "RESTRequest.FollowRedirects.get", gets Owner.request follow_redirects)
    ∷ (bytes "RESTRequest.FollowRedirects.set", puts Owner.request follow_redirects)
    ∷ (bytes "RESTRequest.VerifyCertificate.get", gets Owner.request verify_certificate)
    ∷ (bytes "RESTRequest.VerifyCertificate.set", puts Owner.request verify_certificate)
    ∷ (bytes "RESTRequest.SetQuery", request_set_query)
    ∷ (bytes "RESTRequest.SetBody", request_set_body)
    ∷ (bytes "RESTRequest.SetBodyFile", request_set_body_file)
    ∷ (bytes "RESTRequest.AddFormField", request_add_form_field)
    ∷ (bytes "RESTRequest.AddFormFile", request_add_form_file)
    ∷ (bytes "RESTRequest.SetOutputFile", request_set_output_file)
    ∷ (bytes "RESTRequest.OnHeaders", request_on_headers)
    ∷ (bytes "RESTRequest.OnData", request_on_data)
    ∷ (bytes "RESTRequest.OnProgress", request_on_progress)
    ∷ (bytes "RESTRequest.Send", request_send)
    ∷ (bytes "RESTResponse.Status.get", response_get_status)
    ∷ (bytes "RESTResponse.HttpStatus.get", response_get_http_status)
    ∷ (bytes "RESTResponse.ContentLength.get", response_get_content_length)
    ∷ (bytes "RESTResponse.BodyLength.get", response_get_body_length)
    ∷ (bytes "RESTResponse.ElapsedMs.get", response_get_elapsed_ms)
    ∷ (bytes "RESTResponse.HeaderCount.get", response_get_header_count)
    ∷ (bytes "RESTResponse.GetError", response_get_error)
    ∷ (bytes "RESTResponse.GetUrl", response_get_url)
    ∷ (bytes "RESTResponse.GetHeader", response_get_header)
    ∷ (bytes "RESTResponse.GetHeaderAt", response_get_header_at)
    ∷ (bytes "RESTResponse.GetBody", response_get_body)
    ∷ (bytes "RESTResponse.ReadBody", response_read_body)
    ∷ []
