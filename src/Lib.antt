-- ===== src/Lib.antt =====
-- The decision logic of auth-operator, a Kubernetes operator that generates roles and bindings from
-- definitions and checks them against policies.
--
-- Parts, and the files that model them:
--   pkg/policy/matcher.go                           Policy/Matcher (patterns), Policy/Scope (appliesTo)
--   pkg/policy/evaluator.go                         Policy/Bind, Policy/Bindings, Policy/RoleRefs,
--                                                   Policy/Namespaces, Policy/Subjects
--   pkg/policy/role_evaluator.go                    Policy/Role
--   pkg/policy/constrained_impersonation.go         Policy/Impersonation
--   pkg/policy/{violation,label_getter}.go          Policy/Labels
--   api/authorization/v1alpha1/*_types.go           Api/Policies, Api/Definitions
--   .../constrained_impersonation_types.go          Api/Impersonation
--   internal/webhook/authorization/webhook_authorizer.go
--                                                   Authorize/Rules, Authorize/Principals,
--                                                   Authorize/Evaluate (the loop), Authorize/LiveDeny,
--                                                   Authorize/Decide (evaluateSAR),
--                                                   Authorize/Authenticate, Authorize/Listing,
--                                                   Authorize/Serve (ServeHTTP)
--   .../authorization/binddefinition_bridge.go      Authorize/Bridge, Authorize/Bridge/Scope
--   pkg/indexer/indexer.go                          Authorize/Bridge/Index
--   .../authorization/namespace_*.go, helpers.go    Admission/Ownership, Admission/Selectors (labels),
--                                                   Admission/Bypass,
--                                                   Admission/Protection, Admission/Immutability,
--                                                   Admission/Validate, Admission/Mutate
-- Base holds what the modules share (texts, loops, lists of findings), Kube the Kubernetes types that
-- the program's own types hold, Tests runs at fixed inputs. A module Laws, Compliance, Names, Counted,
-- Denylist, Guards, Grant, Selection, Inheritance or Authorization below a component proves what the
-- component decides.
--
-- How they interact: a reconciler or webhook calls EvaluateBindDefinition or
-- EvaluateRoleDefinitionWithLabels with a policy, a restricted definition and a LabelGetter. The
-- evaluators call the checks of bindings, namespaces, subjects and grants, which call the matchers;
-- each appends violations, and an empty list means that the definition complies. The authorizer webhook
-- goes through the authorizers in order, asks of each whether its selector, principals and rules cover
-- the SubjectAccessReview, and stops at the first one that denies or grants it. Where none does, the
-- bridge looks for a BindDefinition that will grant the access, and asks the API server for a denial
-- before it allows. The namespace webhook refuses deletions and changes of labels first, and then asks
-- the BindDefinitions, or the labels of a service account's own namespace.
--
-- Correspondence. A Go function is the definition of the same name in snake case. A function that
-- appends to `violations` returns the list that it appends, and the body of a loop, or what follows a
-- test of a pointer for nil, is a definition of its own where a proof goes by cases on it. A pointer
-- is an Option, a nil slice and an empty one are both [], int32 is the type of integers, a length is a
-- natural number. Calls of fmt.Sprintf are kept as the format and its arguments. Texts are sequences
-- of characters where Go has bytes; on well-formed UTF-8 the functions of package strings agree. A Go
-- map whose keys are read in sorted order, or only counted, is a list with one entry for each key.
--
-- Parameters: metav1.LabelSelectorAsSelector with Matches (Kube.Selectors) and the LabelGetter, an
-- interface in the source, whose answers do not change during one evaluation; the readers of the API
-- server and of the cache, discovery, the clock, the JSON library and the admission decoder, the
-- limiters by subject, digests and files; Covers of component-helpers; and the library's lookup of a
-- namespace and test of its labels, whose cache of the request is taken to be created. Nothing is
-- assumed of their answers but what a theorem states.
--
-- Bounds. All loops are structural recursion, so that no fuel is chosen anywhere but for the pages of
-- the live check, of which the source reads 256 / 64 = 4; a fifth is an error there as in the source.
--
-- Not modelled: the controllers and the webhooks of the API types, which call the evaluators and the
-- Kubernetes API; validation of grants at admission;
-- the making of limiters; most indexes, server-side apply, metrics, tracing, commands and generated
-- code. A theorem of the handler speaks of its answer, not of what it logs or counts.
pub mod Base
pub mod Kube
pub mod Api
pub mod Policy
pub mod Tests
pub mod Authorize
pub mod Admission
