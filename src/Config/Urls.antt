-- ===== src/Config/Urls.antt =====
-- pkg/config/config.go: the URLs of the platform.
use Prim.Native.String.{◌++◌}
use k8s_runpod_kubelet.Base.{
  String, has_prefix, replace_first, strip_prefix, contains_text, not, ◌&&◌, if◌then◌else◌,
}
use k8s_runpod_kubelet.Config.Settings.{Config}

-- GetWebSocketURL, of the backend URL
unfoldable pub web_socket_url : String → String
unfolding replace_first strip_prefix
web_socket_url url =
    if has_prefix url "http://"
    then replace_first url "http://" "ws://"
    else if has_prefix url "https://"
    then replace_first url "https://" "wss://"
    else if not (has_prefix url "ws://") && not (has_prefix url "wss://")
    then "wss://" ++ url
    else url

unfoldable pub get_web_socket_url : Config → String
unfolding web_socket_url
get_web_socket_url c = web_socket_url c.backend_url

http_scheme : String → String
http_scheme url =
    if has_prefix url "ws://"
    then replace_first url "ws://" "http://"
    else if has_prefix url "wss://"
    then replace_first url "wss://" "https://"
    else if not (has_prefix url "http://") && not (has_prefix url "https://")
    then "https://" ++ url
    else url

drop_socket_path : String → String
drop_socket_path url =
    if contains_text url "/api/kubelet/ws" then replace_first url "/api/kubelet/ws" "" else url

-- GetBackendHTTPURL
unfoldable pub get_backend_http_url : Config → String
unfolding http_scheme drop_socket_path replace_first strip_prefix contains_text
get_backend_http_url c = drop_socket_path (http_scheme c.backend_url)
