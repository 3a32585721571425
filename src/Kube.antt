-- ===== src/Kube.antt =====
-- The Kubernetes and Cluster API side of the controllers: the objects they read and write, the
-- errors they pass on, the third-party code they call, and the requests they send.
mod Unstructured
mod Specs
mod Objects
mod Errors
mod Vendor
mod Versions
mod Requests
pub use Unstructured.*
pub use Specs.*
pub use Objects.*
pub use Errors.*
pub use Versions.*
pub use Vendor.*
pub use Requests.*
