-- ===== src/Connection/Run/Close.antt =====
-- `connection_reusable` and `connection_close` of src/connection.c, as one thread calls them with the
-- mutex free.
use xwp_server.Base.{◌+◌, ◌≡◌, refl, Bool, true, false, Bool-cases, inl, inr, if◌then◌else◌}
use xwp_server.Connection.Run.{
  reuseable, before_reuseable, unreuseable, idle, leaving, unlocked, Conn, Reach, then, leave,
  reuse_takes, reuse_closes, reuse_closed, reuse_destroys, reuse,
}

-- Between the lock and the unlock.
unfoldable pub close_socket : Conn → Conn
close_socket c = record c {
  timedout = false;
  fd = false;
  closed = if c.fd then c.closed + 1 else c.closed;
}

-- `if(request_pool != NULL) pool_destroy(request_pool)`, and `request_pool = NULL`
unfoldable pub destroy_pool : Conn → Conn
destroy_pool c = record c {
  pool = false;
  destroyed = if c.pool then c.destroyed + 1 else c.destroyed;
}

unfoldable pub connection_reusable : Bool → Conn → Conn
unfolding close_socket destroy_pool
connection_reusable reusable c = record (destroy_pool (close_socket c)) {
  state = if reusable then reuseable else unreuseable;
}

-- The cleanup of a connection: `connection_create` leaves it to the pool.
unfoldable pub connection_close : Conn → Conn
unfolding connection_reusable
connection_close c = connection_reusable false (record c { state = before_reuseable })

-- The end of `connection_run`, behind its loop.
unfoldable pub connection_end : Conn → Conn
unfolding connection_reusable
connection_end c = record (connection_reusable true (record c { state = before_reuseable })) {
  runner = idle;
}

-- The serving thread that has left its loop, with no step of the guard in between, does what
-- `connection_reusable` does at once.
pub connection_end-Reach :
    (c : Conn) → Reach c → c.runner ≡ leaving → c.mutex ≡ unlocked → Reach (connection_end c)
unfolding connection_end
connection_end-Reach c h e f =
    let locked = (then) ((then) h (leave e)) (reuse_takes refl f) in
    elim (Bool-cases c.fd) [
      | inl socket ↦
          let closes = (then) locked (reuse_closes refl socket) in
          elim (Bool-cases c.pool) [
            | inl has ↦ rw (socket, has, f) ((then) closes (reuse_destroys refl has))
            | inr has ↦ rw (socket, has, f) (rw has at ((then) closes (reuse refl has)))
          ]
      | inr socket ↦
          let closed = (then) locked (reuse_closed refl socket) in
          elim (Bool-cases c.pool) [
            | inl has ↦ rw (socket, has, f) (rw socket at ((then) closed (reuse_destroys refl has)))
            | inr has ↦ rw (socket, has, f) (rw (socket, has) at ((then) closed (reuse refl has)))
          ]
    ]

-- What a closed connection is.
abbrev pub IsClosed : Conn → Type 0
IsClosed c =
    (c.state ≡ unreuseable)
    × (c.fd ≡ false)
    × (c.pool ≡ false)
    × (c.closed + c.lost ≡ c.accepted)
    × (c.destroyed ≡ c.created + c.lapses)
