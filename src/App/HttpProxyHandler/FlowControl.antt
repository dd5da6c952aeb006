-- ===== src/App/HttpProxyHandler/FlowControl.antt =====
-- app/http_proxy_handler.cpp: the callbacks by which one side of the relay pauses the other.
use my_net_core_proxy.Prelude.{none, some, Result, ok, ◌>>=◌}
use my_net_core_proxy.Net.EventLoop.{Epoll}
use my_net_core_proxy.Net.TcpConnection.{TcpConnection, Environment, start_read, stop_read}
use my_net_core_proxy.App.HttpProxyHandler.Relay.{HttpProxyHandler}
use my_net_core_proxy.App.Backend.{on_loop_of}

module _ (kernel : Epoll) (front_env back_env : Environment kernel.State) where
  -- The backend's high water mark.
  pub pause_frontend : HttpProxyHandler kernel.State → Result (HttpProxyHandler kernel.State)
  pause_frontend r = do f ← stop_read kernel front_env r.frontend; ok (record r { frontend = f })

  -- The backend's write-complete callback.
  pub resume_frontend : HttpProxyHandler kernel.State → Result (HttpProxyHandler kernel.State)
  resume_frontend r = do f ← start_read kernel front_env r.frontend; ok (record r { frontend = f })

  abbrev on_backend :
      (TcpConnection kernel.State → Result (TcpConnection kernel.State))
      → HttpProxyHandler kernel.State
      → Result (HttpProxyHandler kernel.State)
  on_backend f r = elim r.backend_conn [
    | none ↦ ok r
    | some b ↦ do
      b' ← f (on_loop_of r.frontend b)
      ok (record r { backend_conn = some b'; frontend = on_loop_of b' r.frontend })
  ]

  -- The frontend's high water mark.
  pub pause_backend : HttpProxyHandler kernel.State → Result (HttpProxyHandler kernel.State)
  pause_backend r = on_backend (stop_read kernel back_env) r

  -- The frontend's write-complete callback.
  pub resume_backend : HttpProxyHandler kernel.State → Result (HttpProxyHandler kernel.State)
  resume_backend r = on_backend (start_read kernel back_env) r
