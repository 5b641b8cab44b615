-- ===== src/Examples.antt =====
-- Tests on small inputs, and each theorem at an input where its hypotheses hold.
mod Config
mod State
mod Pool
mod Pod
mod Operator
mod Lifecycle
mod Storage
mod WorkerApp
mod Serving
mod ConfigMaps
mod Clientset
mod Tracking
mod DeepCopy
mod Informers
mod Listers
mod Remote
mod Controllers
mod Safety
mod External
mod Settings
mod Wiring
mod Mounted
mod Building
