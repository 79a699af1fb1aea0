-- ===== src/Api/Gate.antt =====
-- What the middleware of internal/api/server.go lets through to the handlers of administrators and of
-- users.
use code_agent_router.Prelude.{refl, true, [], ◌∷◌, arith, List, All, ◌++◌, ◌≡◌}
use code_agent_router.Api.Prefixes.{
  is_admin, is_user, Begins, match_patterns-head, path_segments-prefix,
}
use code_agent_router.Api.Routes.{
  route, Method, relay_patterns, admin_patterns, user_patterns, path_segments,
}
use code_agent_router.Text.{Bytes, codes}
use code_agent_router.Auth.Password.{split_at}

All-append : {A : Type 0} (P : A → Type 0) (xs ys : List A) → All P xs → All P ys → All P (xs ++ ys)
All-append P [] ys h k = k
All-append P (x ∷ xs) ys (p, h) k = (p, All-append P xs ys h k)

relay_patterns-admin : All (Begins (codes "admin") is_admin) relay_patterns
relay_patterns-admin = (
  (λ values h. absurd (ground arith)),
  (
    (λ values h. absurd (ground arith)),
    ((λ values h. absurd (ground arith)), ((λ values h. absurd (ground arith)), tt)),
  ),
)

admin_patterns-admin : All (Begins (codes "admin") is_admin) admin_patterns
admin_patterns-admin = (
  (λ values h. (_, _, refl)),
  (
    (λ values h. (_, _, refl)),
    (
      (λ values h. (_, _, refl)),
      (
        (λ values h. (_, _, refl)),
        (
          (λ values h. (_, _, refl)),
          (
            (λ values h. (_, _, refl)),
            (
              (λ values h. (_, _, refl)),
              (
                (λ values h. (_, _, refl)),
                (
                  (λ values h. (_, _, refl)),
                  (
                    (λ values h. (_, _, refl)),
                    (
                      (λ values h. (_, _, refl)),
                      (
                        (λ values h. (_, _, refl)),
                        (
                          (λ values h. (_, _, refl)),
                          (
                            (λ values h. (_, _, refl)),
                            (
                              (λ values h. (_, _, refl)),
                              ((λ values h. (_, _, refl)), ((λ values h. (_, _, refl)), tt)),
                            ),
                          ),
                        ),
                      ),
                    ),
                  ),
                ),
              ),
            ),
          ),
        ),
      ),
    ),
  ),
)

user_patterns-admin : All (Begins (codes "admin") is_admin) user_patterns
user_patterns-admin = (
  (λ values h. absurd (ground arith)),
  (
    (λ values h. absurd (ground arith)),
    (
      (λ values h. absurd (ground arith)),
      (
        (λ values h. absurd (ground arith)),
        (
          (λ values h. absurd (ground arith)),
          (
            (λ values h. absurd (ground arith)),
            ((λ values h. absurd (ground arith)), ((λ values h. absurd (ground arith)), tt)),
          ),
        ),
      ),
    ),
  ),
)

pub admin_prefix :
    (method : Method) (path : Bytes)
    → is_admin (route method path) ≡ true
    → (tail : Bytes) × (path ≡ codes "/admin/" ++ tail)
unfolding route
admin_prefix method path h =
    let all =
      All-append (Begins (codes "admin") is_admin) relay_patterns (admin_patterns ++ user_patterns)
        relay_patterns-admin
        (All-append (Begins (codes "admin") is_admin) admin_patterns user_patterns
          admin_patterns-admin user_patterns-admin) in
    let (x, rest, e) =
      match_patterns-head (codes "admin") is_admin
        (relay_patterns ++ (admin_patterns ++ user_patterns)) method
        (path_segments (split_at 47 path)) refl all h in
    path_segments-prefix path (codes "admin") x rest e

relay_patterns-user : All (Begins (codes "user") is_user) relay_patterns
relay_patterns-user = (
  (λ values h. absurd (ground arith)),
  (
    (λ values h. absurd (ground arith)),
    ((λ values h. absurd (ground arith)), ((λ values h. absurd (ground arith)), tt)),
  ),
)

admin_patterns-user : All (Begins (codes "user") is_user) admin_patterns
admin_patterns-user = (
  (λ values h. absurd (ground arith)),
  (
    (λ values h. absurd (ground arith)),
    (
      (λ values h. absurd (ground arith)),
      (
        (λ values h. absurd (ground arith)),
        (
          (λ values h. absurd (ground arith)),
          (
            (λ values h. absurd (ground arith)),
            (
              (λ values h. absurd (ground arith)),
              (
                (λ values h. absurd (ground arith)),
                (
                  (λ values h. absurd (ground arith)),
                  (
                    (λ values h. absurd (ground arith)),
                    (
                      (λ values h. absurd (ground arith)),
                      (
                        (λ values h. absurd (ground arith)),
                        (
                          (λ values h. absurd (ground arith)),
                          (
                            (λ values h. absurd (ground arith)),
                            (
                              (λ values h. absurd (ground arith)),
                              (
                                (λ values h. absurd (ground arith)),
                                ((λ values h. absurd (ground arith)), tt),
                              ),
                            ),
                          ),
                        ),
                      ),
                    ),
                  ),
                ),
              ),
            ),
          ),
        ),
      ),
    ),
  ),
)

user_patterns-user : All (Begins (codes "user") is_user) user_patterns
user_patterns-user = (
  (λ values h. (_, _, refl)),
  (
    (λ values h. (_, _, refl)),
    (
      (λ values h. (_, _, refl)),
      (
        (λ values h. (_, _, refl)),
        (
          (λ values h. (_, _, refl)),
          (
            (λ values h. (_, _, refl)),
            ((λ values h. (_, _, refl)), ((λ values h. (_, _, refl)), tt)),
          ),
        ),
      ),
    ),
  ),
)

pub user_prefix :
    (method : Method) (path : Bytes)
    → is_user (route method path) ≡ true
    → (tail : Bytes) × (path ≡ codes "/user/" ++ tail)
unfolding route
user_prefix method path h =
    let all =
      All-append (Begins (codes "user") is_user) relay_patterns (admin_patterns ++ user_patterns)
        relay_patterns-user
        (All-append (Begins (codes "user") is_user) admin_patterns user_patterns admin_patterns-user
          user_patterns-user) in
    let (x, rest, e) =
      match_patterns-head (codes "user") is_user
        (relay_patterns ++ (admin_patterns ++ user_patterns)) method
        (path_segments (split_at 47 path)) refl all h in
    path_segments-prefix path (codes "user") x rest e
