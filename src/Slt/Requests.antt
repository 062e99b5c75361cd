-- ===== src/Slt/Requests.antt =====
-- test/slt/helpers/helpers.go and test/slt/checks/request/request.go: the requests to the API of the
-- registry. Log lines and the durations that are measured are left out.
use cluster_registry.Prelude.{
  ℕ, String, ◌<>◌, ◌==◌, none, some, Result, ok, err, Act, decimal, eqb, if◌then◌else◌,
}
use cluster_registry.Registry.Cluster.{ClusterSpec}
use cluster_registry.Slt.{
  Ending, ended, fatal, then_end, ClusterItems, Reply, SltApi, ◌>>=◌, explained, pure_call,
}

pub record GetClusterConfig : Type 0 where
  pub url : String
  pub cluster_name : String

pub record GetAllClusterConfig : Type 0 where
  pub url : String
  pub page_nr : String
  pub per_page_limit : String

-- What `reqGet` makes of an answer: the body, beside the status of the answer.
abbrev read_reply : Reply → Result String × ℕ
read_reply reply =
    if eqb reply.code 200
    then (explained "cannot read response body: " reply.body, reply.code)
    else (
      elim (reply.body) [
        | err e ↦
            err ("status code " <> decimal reply.code <> ": could not read response body: " <> e)
        | ok body ↦
            err ("cannot get cluster: Status code " <> decimal reply.code <> ", body:" <> body)
      ],
      reply.code,
    )

-- An error without an answer has the status 0.
abbrev reply_or_error : Result Reply → Result String × ℕ
reply_or_error (err e) = (err ("cannot make http request: " <> e), 0)
reply_or_error (ok reply) = read_reply reply

-- The error of `GetCluster`, which names a cluster that is not there.
abbrev told_missing : String → Result String × ℕ → Result String
told_missing name (ok body, code) = ok body
told_missing name (err e, code) =
    if eqb code 404 then err ("cluster " <> name <> " was not found: " <> e) else err e

abbrev cluster_endpoint : String → String → String
cluster_endpoint url name = url <> "/api/v2/clusters/" <> name

abbrev clusters_endpoint : String → String → String → String
clusters_endpoint url limit page = url <> "/api/v2/clusters?offset=" <> page <> "&limit=" <> limit

module _ {W Principal : Type 0} (api : SltApi W Principal) where
  -- `GetEnv`: a variable without a fallback value is mandatory.
  unfoldable pub get_env : String → String → Ending String
  get_env key fallback = elim (api.env key) [
    | some value ↦ ended value
    | none ↦
        if fallback == "" then fatal ("missing environment variable " <> key) else ended fallback
  ]

  -- `reqGet`
  unfoldable pub req_get : String → String → Act W (Result String × ℕ)
  req_get endpoint bearer w = elim (api.new_request endpoint) [
    | err e ↦ ((err ("cannot build http request: " <> e), 0), w)
    | ok u ↦ let (answer, w') = api.do_get endpoint bearer w in (reply_or_error answer, w')
  ]

  -- `GetCluster` of the helpers.
  unfoldable pub fetch_cluster : String → String → String → Act W (Result ClusterSpec)
  unfolding req_get
  fetch_cluster url name token =
      (λ w.
        let (answer, w') = req_get (cluster_endpoint url name) ("Bearer " <> token) w in
        (told_missing name answer, w'))
      >>= λ body. pure_call (explained "failed to unmarshal response: " (api.decode_spec body))

  -- `GetClusters` of the helpers.
  unfoldable pub fetch_clusters : String → String → String → String → Act W (Result ClusterItems)
  unfolding req_get
  fetch_clusters url limit page token =
      (λ w.
        let (answer, w') = req_get (clusters_endpoint url limit page) ("Bearer " <> token) w in
        (answer.0, w'))
      >>= λ body. pure_call (explained "failed to unmarshal response: " (api.decode_items body))

  unfoldable pub get_cluster_config_from_env : Ending GetClusterConfig
  unfolding get_env
  get_cluster_config_from_env = then_end (get_env "URL" "http://localhost:8080") λ url.
      then_end (get_env "CLUSTER_NAME" "") λ name. ended (record { url = url; cluster_name = name })

  unfoldable pub get_all_cluster_config_from_env : Ending GetAllClusterConfig
  unfolding get_env
  get_all_cluster_config_from_env = then_end (get_env "URL" "http://localhost:8080") λ url.
      then_end (get_env "PAGE_NR" "0") λ page.
        then_end (get_env "PER_PAGE_LIMIT" "200")
          λ limit. ended (record { url = url; page_nr = page; per_page_limit = limit })

  unfoldable pub run_get_cluster : GetClusterConfig → String → Act W (Result (Unit {0}))
  unfolding fetch_cluster
  run_get_cluster config token =
      fetch_cluster config.url config.cluster_name token >>= λ spec. pure_call (ok tt)

  unfoldable pub run_get_all_clusters : GetAllClusterConfig → String → Act W (Result (Unit {0}))
  unfolding fetch_clusters
  run_get_all_clusters config token =
      fetch_clusters config.url config.per_page_limit config.page_nr token >>= λ items.
      pure_call (ok tt)
